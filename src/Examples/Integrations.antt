-- ===== src/Examples/Integrations.antt =====
-- API keys and webhooks.
use tasks_platform.Common.{
  ℕ, inl, inr, subst, sym, ◌≡◌, refl, arith, String, true, false, Option, none, some, [], ◌∷◌,
  Among, DistinctKeys, ◌==◌, if◌then◌else◌, str_eq,
}
use tasks_platform.Authorization.Permissions.{Permission, owner, admin, task_read, project_read}
use tasks_platform.Authorization.Actor.{is_permission_grantable_to_api_key}
use tasks_platform.Database.Schema.{
  task_created, task_event, null, user_actor, OutboxEvent, OutboxEvent_key,
}
use tasks_platform.Database.Integrations.{ApiKey, WebhookEndpoint}
use tasks_platform.Database.Client.{Db, ok, err}
use tasks_platform.Database.Steps.{Ends}
use tasks_platform.Database.Outcomes.{Atomic}
use tasks_platform.Database.Instance.{memory, memory_tables}
use tasks_platform.Database.Memory.Scan.{first_below}
use tasks_platform.Members.Gate.{MembershipContext, api_key_auth}
use tasks_platform.Members.Controller.{admit}
use tasks_platform.ApiKeys.Service
use tasks_platform.ApiKeys.Service.{
  NewApiKey, ApiKeyAuthentication, authenticate, rejected, revoked_key, has_key_hash,
}
use tasks_platform.ApiKeys.Authentication.{require_auth}
use tasks_platform.ApiKeys.Scopes.{Granted, create-Granted}
use tasks_platform.ApiKeys.Validity.{Judged, authenticate-Judged}
use tasks_platform.ApiKeys.Controller
use tasks_platform.ApiKeys.Controller.{Draws}
use tasks_platform.ApiKeys.Catalog.{InCatalog}
use tasks_platform.ApiKeys.Invariant.{reserved, serve_all-InCatalog, admit-grantable}
use tasks_platform.Webhooks.Operations.{failed, rotate_secret, run_all}
use tasks_platform.Webhooks.Health.{Healthy, run_all-Healthy}
use tasks_platform.Worker.Once.{cycle, recorded, claims, claims-DistinctKeys}
use tasks_platform.Examples.Rows

abbrev key : ApiKey
key = record {
  id = 1;
  organization_id = 1;
  name = "CI";
  prefix = "tp_live_AAAAAAAA";
  key_hash = "tp_live_AAAAAAAABBBB";
  scopes = task_read ∷ project_read ∷ [];
  created_by_id = 1;
  last_used_at = none;
  expires_at = some 100;
  revoked_at = none;
  created_at = 0;
}

abbrev pub endpoint : WebhookEndpoint
endpoint = record {
  id = 1;
  organization_id = 1;
  url = "https://example.com/hook";
  secret = "whsec_one";
  event_types = task_created ∷ [];
  enabled = true;
  disabled_reason = none;
  consecutive_failures = 0;
  created_by_id = 1;
  created_at = 0;
}

abbrev event : ℕ → OutboxEvent
event id = record {
  id = id;
  organization_id = 1;
  type = some task_created;
  payload = task_event 1 task_created null null (user_actor 1) 0;
  created_at = id;
  dispatched_at = none;
  attempts = 0;
}

-- One key, one endpoint and two events that wait.
abbrev db : Db memory_tables
db = record Rows.db {
  api_keys = record { bound = 2; row = λ k. if k == 1 then some key else none };
  webhook_endpoints = record { bound = 2; row = λ k. if k == 1 then some endpoint else none };
  outbox_events = record {
    bound = 3;
    row = λ k. if k == 1 then some (event 1) else if k == 2 then some (event 2) else none;
  };
}

abbrev new_key : NewApiKey
new_key = record { id = 2; now = 5; prefix = "tp_live_CCCCCCCC"; key_hash = "other" }

abbrev draws : Draws
draws = record { noted = true; now = 5; new = new_key }

-- The tests' hash, and their only access token.
abbrev hash : String → String
hash token = token

abbrev verify : String → Option ℕ
verify token = if str_eq token "owner" then some 1 else none

scopes_in_catalog :
    (p : Permission) → Among p key.scopes → is_permission_grantable_to_api_key p ≡ true
unfolding is_permission_grantable_to_api_key tasks_platform.Authorization.Permissions.includes
scopes_in_catalog p (inl e) = subst (λ q. is_permission_grantable_to_api_key q ≡ true) (sym e) refl
scopes_in_catalog p (inr (inl e)) =
    subst (λ q. is_permission_grantable_to_api_key q ≡ true) (sym e) refl
scopes_in_catalog p (inr (inr none_left)) = absurd none_left

in_catalog : InCatalog memory_tables db
in_catalog k x there p at =
    let is : x ≡ key = ground arith in
    scopes_in_catalog p (subst (λ (r : ApiKey). Among p r.scopes) is at)

create-Granted_example :
    Ends
      (Atomic db
        (Granted memory_tables new_key 1 1 owner "Bot" ("task:read" ∷ "task:read" ∷ []) none db))
      (Service.create new_key 1 1 owner "Bot" ("task:read" ∷ "task:read" ∷ []) none db)
create-Granted_example =
    create-Granted memory_tables new_key 1 1 owner "Bot" ("task:read" ∷ "task:read" ∷ []) none db

authenticate-Judged_example :
    (answer : ApiKeyAuthentication) × (after : Db memory_tables) × (authenticate true 5
        "tp_live_AAAAAAAABBBB" db
      ≡ (ok answer, after))
    × Judged memory_tables 5
        (memory_tables.api_key.find_first (has_key_hash "tp_live_AAAAAAAABBBB") db.api_keys)
        db
        answer
        after
authenticate-Judged_example = authenticate-Judged memory_tables true 5 "tp_live_AAAAAAAABBBB" db

serve_all-InCatalog_example : InCatalog memory_tables (
    Controller.serve_all memory hash verify
      ((draws, some "Bearer owner", Controller.create 1 "Bot" ("task:read" ∷ []) none)
        ∷ (draws, some "Bearer tp_live_AAAAAAAABBBB", Controller.revoke 1 1)
        ∷ [])
      db)
serve_all-InCatalog_example =
    serve_all-InCatalog memory hash verify
      ((draws, some "Bearer owner", Controller.create 1 "Bot" ("task:read" ∷ []) none)
        ∷ (draws, some "Bearer tp_live_AAAAAAAABBBB", Controller.revoke 1 1)
        ∷ [])
      db in_catalog

abbrev of_organization : MembershipContext
of_organization = record { organization_id = 1; membership_id = none; role = none }

abbrev first_key : Draws
first_key = record draws {
  new = record { id = 2; now = 5; prefix = "tp_live_DDDDDDDD"; key_hash = "tp_live_DDDDDDDDEEEE" };
}

-- The owner of an organization without keys makes one that may read tasks.
abbrev one_key : Db memory_tables
one_key =
    Controller.serve_all memory hash verify
      ((first_key, some "Bearer owner", Controller.create 1 "Bot" ("task:read" ∷ []) none) ∷ [])
      Rows.db

admit-grantable_example :
    (is_permission_grantable_to_api_key task_read ≡ true) × (¬ Among task_read reserved)
unfolding first_below require_auth tasks_platform.Database.Client.or_throw authenticate
    Service.find_by_hash admit tasks_platform.Members.Gate.require_membership
    tasks_platform.Members.Gate.find_organization tasks_platform.Members.Gate.resolve
    tasks_platform.Database.Client.ensure tasks_platform.Members.Gate.require_permission
    tasks_platform.Authorization.Permissions.includes Controller.serve_all Controller.serve
    tasks_platform.Members.Gate.require_user_actor Service.create Service.create_row Service.known
    Service.unique_from Service.contains tasks_platform.Database.Client.stored
    tasks_platform.Members.Repository.find_by_user_and_organization
    tasks_platform.Authorization.Permissions.role_has_permission
    tasks_platform.ApiKeys.Authentication.after_prefix is_permission_grantable_to_api_key
    tasks_platform.Authorization.Permissions.is_permission tasks_platform.Common.filter
    tasks_platform.Authorization.Actor.actor_has_permission
admit-grantable_example =
    admit-grantable memory hash verify
      ((first_key, some "Bearer owner", Controller.create 1 "Bot" ("task:read" ∷ []) none) ∷ [])
      Rows.db false 5 (some "Bearer tp_live_DDDDDDDDEEEE") one_key 2 1 (task_read ∷ []) 1 task_read
      Rows.db Rows.db of_organization (λ k. ground arith) refl refl

run_all-Healthy_example :
    Healthy memory_tables 20
      (run_all 20 (failed 5 5 1 ∷ rotate_secret "whsec_two" endpoint ∷ failed 4 5 1 ∷ []) db)
run_all-Healthy_example =
    run_all-Healthy memory_tables 20
      (failed 5 5 1 ∷ rotate_secret "whsec_two" endpoint ∷ failed 4 5 1 ∷ []) db (omega arith)
      (λ k x there on. ground arith)

claims-DistinctKeys_example :
    DistinctKeys OutboxEvent_key
      (claims (cycle 5 1 (λ e. e.id == 1) ∷ recorded (event 3) ∷ cycle 6 20 (λ e. false) ∷ []) db)
claims-DistinctKeys_example =
    claims-DistinctKeys memory_tables
      (cycle 5 1 (λ e. e.id == 1) ∷ recorded (event 3) ∷ cycle 6 20 (λ e. false) ∷ []) db
