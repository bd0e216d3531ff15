-- ===== src/Database/Schema.antt =====
-- The rows of the tables, after apps/api/prisma/schema.prisma and the entity types of the modules:
-- a UUID is a number, a date its milliseconds. `updatedAt`, which Prisma writes and no service
-- reads, is left out. The second function for a table says which rows its unique indexes exclude.
use tasks_platform.Common.{
  ℕ, String, Bool, false, not, ◌&&◌, ◌||◌, Option, List, ◌==◌, str_eq, is_some,
}
use tasks_platform.Authorization.Permissions.{Role}

-- apps/api/src/modules/users/users.types.ts
pub record User : Type 0 where
  pub id : ℕ
  pub email : String
  pub password_hash : String
  pub name : String
  pub email_verified_at : Option ℕ
  pub created_at : ℕ
  pub deleted_at : Option ℕ

abbrev pub User_key : User → ℕ
User_key r = r.id

abbrev pub User_clashes : User → User → Bool
User_clashes r x = str_eq r.email x.email

-- apps/api/src/modules/organizations/organizations.types.ts
pub record Organization : Type 0 where
  pub id : ℕ
  pub name : String
  pub slug : String
  pub created_at : ℕ
  pub deleted_at : Option ℕ

abbrev pub Organization_key : Organization → ℕ
Organization_key r = r.id

abbrev pub Organization_clashes : Organization → Organization → Bool
Organization_clashes r x = str_eq r.slug x.slug

-- apps/api/src/modules/members/members.types.ts
pub record Membership : Type 0 where
  pub id : ℕ
  pub user_id : ℕ
  pub organization_id : ℕ
  pub role : Role
  pub joined_at : ℕ

abbrev pub Membership_key : Membership → ℕ
Membership_key r = r.id

abbrev pub Membership_clashes : Membership → Membership → Bool
Membership_clashes r x = r.user_id == x.user_id && r.organization_id == x.organization_id

-- apps/api/src/modules/invitations/invitations.types.ts
pub record Invitation : Type 0 where
  pub id : ℕ
  pub organization_id : ℕ
  pub email : String
  pub role : Role
  pub token_hash : String
  pub invited_by_id : ℕ
  pub expires_at : ℕ
  pub accepted_at : Option ℕ
  pub revoked_at : Option ℕ
  pub created_at : ℕ

abbrev pub Invitation_key : Invitation → ℕ
Invitation_key r = r.id

-- `acceptedAt IS NULL AND revokedAt IS NULL`
abbrev pub is_pending : Invitation → Bool
is_pending r = not (is_some r.accepted_at) && not (is_some r.revoked_at)

-- The unique token hash, and the partial index on the pending invitations.
abbrev pub Invitation_clashes : Invitation → Invitation → Bool
Invitation_clashes r x =
    str_eq r.token_hash x.token_hash
    || is_pending r
      && is_pending x
      && r.organization_id == x.organization_id
      && str_eq r.email x.email

-- apps/api/src/modules/auth/auth.types.ts
pub record RefreshToken : Type 0 where
  pub id : ℕ
  pub user_id : ℕ
  pub token_hash : String
  pub family_id : ℕ
  pub expires_at : ℕ
  pub revoked_at : Option ℕ
  pub replaced_by_id : Option ℕ
  pub created_at : ℕ
  pub user_agent : Option String
  pub ip_address : Option String

abbrev pub RefreshToken_key : RefreshToken → ℕ
RefreshToken_key r = r.id

abbrev pub RefreshToken_clashes : RefreshToken → RefreshToken → Bool
RefreshToken_clashes r x = str_eq r.token_hash x.token_hash

-- packages/shared/src/account-tokens/account-tokens.types.ts
pub record AccountToken : Type 0 where
  pub id : ℕ
  pub user_id : ℕ
  pub token_hash : String
  pub expires_at : ℕ
  pub used_at : Option ℕ
  pub created_at : ℕ

abbrev pub AccountToken_key : AccountToken → ℕ
AccountToken_key r = r.id

abbrev pub AccountToken_clashes : AccountToken → AccountToken → Bool
AccountToken_clashes r x = str_eq r.token_hash x.token_hash

-- apps/api/src/modules/projects/projects.types.ts
pub data ProjectStatus : Type 0 where
  active archived : ProjectStatus

pub record Project : Type 0 where
  pub id : ℕ
  pub organization_id : ℕ
  pub key : String
  pub name : String
  pub description : Option String
  pub status : ProjectStatus
  pub task_counter : ℕ
  pub created_by_id : Option ℕ
  pub created_by_api_key_id : Option ℕ
  pub created_at : ℕ
  pub deleted_at : Option ℕ

abbrev pub Project_key : Project → ℕ
Project_key r = r.id

abbrev pub Project_clashes : Project → Project → Bool
Project_clashes r x = r.organization_id == x.organization_id && str_eq r.key x.key

-- packages/contracts/src/tasks.schema.ts
pub data TaskStatus : Type 0 where
  todo in_progress done cancelled : TaskStatus

pub data TaskPriority : Type 0 where
  low medium high urgent : TaskPriority

-- apps/api/src/modules/tasks/tasks.types.ts. The assignee and the labels that a query joins to a
-- task are not columns of it.
pub record Task : Type 0 where
  pub id : ℕ
  pub project_id : ℕ
  pub number : ℕ
  pub title : String
  pub description : Option String
  pub status : TaskStatus
  pub priority : TaskPriority
  pub assignee_id : Option ℕ
  pub created_by_id : Option ℕ
  pub created_by_api_key_id : Option ℕ
  pub due_date : Option ℕ
  pub completed_at : Option ℕ
  pub version : ℕ
  pub created_at : ℕ
  pub deleted_at : Option ℕ

abbrev pub Task_key : Task → ℕ
Task_key r = r.id

abbrev pub Task_clashes : Task → Task → Bool
Task_clashes r x = r.project_id == x.project_id && r.number == x.number

-- apps/api/src/modules/activity/activity.types.ts
pub data TaskActivityType : Type 0 where
  task_created status_changed priority_changed assignee_changed : TaskActivityType
  due_date_changed title_changed labels_changed comment_added : TaskActivityType

-- What the services put in `before` and `after`.
pub data Json : Type 0 where
  null : Json
  text : String → Json
  status_of : TaskStatus → Json
  priority_of : TaskPriority → Json
  iso_date : ℕ → Json
  uuid : ℕ → Json
  created_task : String → TaskStatus → Json
  added_comment : ℕ → String → Json
  label_names : List String → Json

pub record TaskActivity : Type 0 where
  pub id : ℕ
  pub task_id : ℕ
  pub actor_id : Option ℕ
  pub api_key_actor_id : Option ℕ
  pub type : TaskActivityType
  pub before : Json
  pub after : Json
  pub created_at : ℕ

abbrev pub TaskActivity_key : TaskActivity → ℕ
TaskActivity_key r = r.id

-- `{ type: 'USER' | 'API_KEY', id }` of an event's payload
pub data EventActor : Type 0 where
  user_actor : ℕ → EventActor
  api_key_actor : ℕ → EventActor

-- A row of OutboxEvent. A test event has no task, so its payload is another constructor.
pub data Payload : Type 0 where
  task_event : ℕ → TaskActivityType → Json → Json → EventActor → ℕ → Payload
  webhook_test : ℕ → Payload

pub record OutboxEvent : Type 0 where
  pub id : ℕ
  pub organization_id : ℕ
  pub type : Option TaskActivityType
  pub payload : Payload
  pub created_at : ℕ
  pub dispatched_at : Option ℕ
  pub attempts : ℕ

abbrev pub OutboxEvent_key : OutboxEvent → ℕ
OutboxEvent_key r = r.id

-- A table with no unique index but its primary key.
abbrev pub never_clashes : {A : Type 0} → A → A → Bool
never_clashes r x = false
