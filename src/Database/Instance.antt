-- ===== src/Database/Instance.antt =====
-- A whole database in memory, with transactions: the interface can be met.
use tasks_platform.Common.{refl, false, str_eq}
use tasks_platform.Database.Memory.{memory_table, empty}
use tasks_platform.Database.Client.{Tables, Db, Prisma, rolled_back}
use tasks_platform.Database.Schema.{
  User_key, User_clashes, Organization_key, Organization_clashes, Membership_key,
  Membership_clashes, Invitation_key, Invitation_clashes, RefreshToken_key, RefreshToken_clashes,
  AccountToken_key, AccountToken_clashes, Project_key, Project_clashes, Task_key, Task_clashes,
  TaskActivity, TaskActivity_key, OutboxEvent, OutboxEvent_key, never_clashes,
}
use tasks_platform.Database.Integrations.{
  ApiKey_key, ApiKey_clashes, WebhookEndpoint, WebhookEndpoint_key, WebhookDelivery,
  WebhookDelivery_key, Comment, Comment_key,
}
use tasks_platform.Database.Labels.{Label_key, Label_clashes, memory_links}

abbrev pub memory_tables : Tables
memory_tables = record {
  same_text = str_eq;
  user = memory_table User_key User_clashes;
  organization = memory_table Organization_key Organization_clashes;
  membership = memory_table Membership_key Membership_clashes;
  invitation = memory_table Invitation_key Invitation_clashes;
  refresh_token = memory_table RefreshToken_key RefreshToken_clashes;
  verification_token = memory_table AccountToken_key AccountToken_clashes;
  password_reset_token = memory_table AccountToken_key AccountToken_clashes;
  project = memory_table Project_key Project_clashes;
  task = memory_table Task_key Task_clashes;
  task_activity = memory_table TaskActivity_key (never_clashes {A = TaskActivity});
  outbox_event = memory_table OutboxEvent_key (never_clashes {A = OutboxEvent});
  api_key = memory_table ApiKey_key ApiKey_clashes;
  webhook_endpoint = memory_table WebhookEndpoint_key (never_clashes {A = WebhookEndpoint});
  webhook_delivery = memory_table WebhookDelivery_key (never_clashes {A = WebhookDelivery});
  comment = memory_table Comment_key (never_clashes {A = Comment});
  label = memory_table Label_key (Label_clashes str_eq);
  task_label = memory_links;
}

abbrev pub memory : Prisma
memory = record {
  tables = memory_tables;
  transaction = λ A block db. rolled_back db (block db);
  transaction_lem = λ A block db. refl;
}

abbrev pub empty_db : Db memory_tables
empty_db = record {
  users = empty User_key User_clashes;
  organizations = empty Organization_key Organization_clashes;
  memberships = empty Membership_key Membership_clashes;
  invitations = empty Invitation_key Invitation_clashes;
  refresh_tokens = empty RefreshToken_key RefreshToken_clashes;
  verification_tokens = empty AccountToken_key AccountToken_clashes;
  password_reset_tokens = empty AccountToken_key AccountToken_clashes;
  projects = empty Project_key Project_clashes;
  tasks = empty Task_key Task_clashes;
  activities = empty TaskActivity_key (never_clashes {A = TaskActivity});
  outbox_events = empty OutboxEvent_key (never_clashes {A = OutboxEvent});
  api_keys = empty ApiKey_key ApiKey_clashes;
  webhook_endpoints = empty WebhookEndpoint_key (never_clashes {A = WebhookEndpoint});
  webhook_deliveries = empty WebhookDelivery_key (never_clashes {A = WebhookDelivery});
  comments = empty Comment_key (never_clashes {A = Comment});
  labels = empty Label_key (Label_clashes str_eq);
  task_labels = λ task label. false;
}
