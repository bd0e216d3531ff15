-- ===== src/Database/Client.antt =====
-- The tables of the database, its state, and the Prisma client's transactions.
use tasks_platform.Common.{◌≡◌, String, Bool, true, false, Option, none, some}
use tasks_platform.Errors.{AppError, Thrown, app, other}
use tasks_platform.Database.Table.{Table}
use tasks_platform.Database.Schema.{
  User_key, User_clashes, Organization_key, Organization_clashes, Membership_key,
  Membership_clashes, Invitation_key, Invitation_clashes, RefreshToken_key, RefreshToken_clashes,
  AccountToken_key, AccountToken_clashes, Project_key, Project_clashes, Task_key, Task_clashes,
  TaskActivity, TaskActivity_key, OutboxEvent, OutboxEvent_key, never_clashes,
}
use tasks_platform.Database.Integrations.{
  ApiKey_key, ApiKey_clashes, WebhookEndpoint, WebhookEndpoint_key, WebhookDelivery,
  WebhookDelivery_key, Comment, Comment_key,
}
use tasks_platform.Database.Labels.{Label_key, Label_clashes, Links}

pub record Tables : Type 1 where
  -- texts compared with no regard to case
  pub same_text : String → String → Bool
  pub user : Table User_key User_clashes
  pub organization : Table Organization_key Organization_clashes
  pub membership : Table Membership_key Membership_clashes
  pub invitation : Table Invitation_key Invitation_clashes
  pub refresh_token : Table RefreshToken_key RefreshToken_clashes
  pub verification_token : Table AccountToken_key AccountToken_clashes
  pub password_reset_token : Table AccountToken_key AccountToken_clashes
  pub project : Table Project_key Project_clashes
  pub task : Table Task_key Task_clashes
  pub task_activity : Table TaskActivity_key (never_clashes {A = TaskActivity})
  pub outbox_event : Table OutboxEvent_key (never_clashes {A = OutboxEvent})
  pub api_key : Table ApiKey_key ApiKey_clashes
  pub webhook_endpoint : Table WebhookEndpoint_key (never_clashes {A = WebhookEndpoint})
  pub webhook_delivery : Table WebhookDelivery_key (never_clashes {A = WebhookDelivery})
  pub comment : Table Comment_key (never_clashes {A = Comment})
  pub label : Table Label_key (Label_clashes same_text)
  pub task_label : Links

-- What is stored: the rows of each table.
pub record Db (t : Tables) : Type 0 where
  pub users : t.user.Rows
  pub organizations : t.organization.Rows
  pub memberships : t.membership.Rows
  pub invitations : t.invitation.Rows
  pub refresh_tokens : t.refresh_token.Rows
  pub verification_tokens : t.verification_token.Rows
  pub password_reset_tokens : t.password_reset_token.Rows
  pub projects : t.project.Rows
  pub tasks : t.task.Rows
  pub activities : t.task_activity.Rows
  pub outbox_events : t.outbox_event.Rows
  pub api_keys : t.api_key.Rows
  pub webhook_endpoints : t.webhook_endpoint.Rows
  pub webhook_deliveries : t.webhook_delivery.Rows
  pub comments : t.comment.Rows
  pub labels : t.label.Rows
  pub task_labels : t.task_label.Rows

pub data Result (A : Type 0) : Type 0 where
  ok : A → Result A
  err : Thrown → Result A

-- A service's method: what it wrote before a throw stays written, unless it is in a transaction.
abbrev pub Action : Tables → Type 0 → Type 0
Action t A = Db t → Result A × Db t

-- What a transaction leaves: all the writes of a block that returns, none of one that throws.
abbrev pub rolled_back : {t : Tables} {A : Type 0} → Db t → Result A × Db t → Result A × Db t
rolled_back before (ok a, after) = (ok a, after)
rolled_back before (err e, after) = (err e, before)

pub record Prisma : Type 1 where
  pub tables : Tables
  pub transaction : (A : Type 0) → Action tables A → Action tables A
  pub transaction_lem :
      (A : Type 0) (block : Action tables A) (db : Db tables)
      → transaction A block db ≡ rolled_back db (block db)

-- An error of the client itself: a constraint that failed, or a row that is not there.
abbrev pub prisma_error : Thrown
prisma_error = other "PrismaClientKnownRequestError" ""

module _ {t : Tables} {A : Type 0} where
  abbrev pub pure : A → Action t A
  pure a db = (ok a, db)

  abbrev pub throw : AppError → Action t A
  throw e db = (err (app e), db)

  -- `if (!o) throw e;`, and the value from there on
  unfoldable pub or_throw : Option A → AppError → Action t A
  or_throw none e = throw e
  or_throw (some a) e = pure a

  -- The end of a `create` or a `delete`: what is stored from then on, and the value that it returns.
  unfoldable pub stored : {R : Type 0} → Option R → (R → Db t) → A → Action t A
  stored none put a db = (err prisma_error, db)
  stored (some rows) put a db = (ok a, put rows)

  -- The end of an `update`, which returns the row.
  unfoldable pub changed : {R : Type 0} → Option (A × R) → (R → Db t) → Action t A
  changed none put db = (err prisma_error, db)
  changed (some (a, rows)) put db = (ok a, put rows)

module _ {t : Tables} where
  -- `if (b) throw e;`
  unfoldable pub refuse : Bool → AppError → Action t (Unit {0})
  refuse true e = throw e
  refuse false e = pure tt

  -- `if (!b) throw e;`
  unfoldable pub ensure : Bool → AppError → Action t (Unit {0})
  ensure true e = pure tt
  ensure false e = throw e

-- What follows a step: the rest on its value and the state that it left, or its error.
abbrev pub continue :
    {t : Tables} {A B : Type 0} → Result A × Db t → (A → Action t B) → Result B × Db t
continue (ok a, db) f = f a db
continue (err e, db) f = (err e, db)

infixl 5 ◌>>=◌ ◌>>◌
abbrev pub ◌>>=◌ : {t : Tables} {A B : Type 0} → Action t A → (A → Action t B) → Action t B
◌>>=◌ m f db = continue (m db) f

abbrev pub ◌>>◌ : {t : Tables} {A B : Type 0} → Action t A → Action t B → Action t B
m >> k = m >>= λ _. k
