-- ===== src/Database/Integrations.antt =====
-- The rows of the tables for API keys, webhooks and comments, after apps/api/prisma/schema.prisma and the
-- types of their modules, in the way of Schema.
use tasks_platform.Common.{ℕ, String, Bool, Option, List, str_eq}
use tasks_platform.Authorization.Permissions.{Permission}
use tasks_platform.Database.Schema.{TaskActivityType}

-- apps/api/src/modules/api-keys/api-keys.types.ts
pub record ApiKey : Type 0 where
  pub id : ℕ
  pub organization_id : ℕ
  pub name : String
  pub prefix : String
  pub key_hash : String
  pub scopes : List Permission
  pub created_by_id : ℕ
  pub last_used_at : Option ℕ
  pub expires_at : Option ℕ
  pub revoked_at : Option ℕ
  pub created_at : ℕ

abbrev pub ApiKey_key : ApiKey → ℕ
ApiKey_key r = r.id

abbrev pub ApiKey_clashes : ApiKey → ApiKey → Bool
ApiKey_clashes r x = str_eq r.key_hash x.key_hash

-- apps/api/src/modules/webhooks/webhooks.types.ts. The text of the reason names a number of failures,
-- which stands for it.
pub record WebhookEndpoint : Type 0 where
  pub id : ℕ
  pub organization_id : ℕ
  pub url : String
  pub secret : String
  pub event_types : List TaskActivityType
  pub enabled : Bool
  pub disabled_reason : Option ℕ
  pub consecutive_failures : ℕ
  pub created_by_id : ℕ
  pub created_at : ℕ

abbrev pub WebhookEndpoint_key : WebhookEndpoint → ℕ
WebhookEndpoint_key r = r.id

-- The text of a delivery's error: that the endpoint answered with a status, or the message of an error.
pub data DeliveryError : Type 0 where
  http_status : ℕ → DeliveryError
  message : String → DeliveryError

pub record WebhookDelivery : Type 0 where
  pub id : ℕ
  pub endpoint_id : ℕ
  pub outbox_event_id : ℕ
  pub attempt : ℕ
  pub status_code : Option ℕ
  pub response_snippet : Option String
  pub error : Option DeliveryError
  pub duration_ms : ℕ
  pub created_at : ℕ

abbrev pub WebhookDelivery_key : WebhookDelivery → ℕ
WebhookDelivery_key r = r.id

-- apps/api/src/modules/comments/comments.types.ts, less the author that a query joins
pub record Comment : Type 0 where
  pub id : ℕ
  pub task_id : ℕ
  pub author_id : Option ℕ
  pub author_api_key_id : Option ℕ
  pub body : String
  pub edited_at : Option ℕ
  pub created_at : ℕ
  pub deleted_at : Option ℕ

abbrev pub Comment_key : Comment → ℕ
Comment_key r = r.id
