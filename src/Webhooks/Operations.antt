-- ===== src/Webhooks/Operations.antt =====
-- All that the API (apps/api/src/modules/webhooks) and the worker (apps/worker/src) do with endpoints, as
-- operations on the database that run one after another.
use tasks_platform.Common.{ℕ, String, List, [], ◌∷◌}
use tasks_platform.Database.Schema.{TaskActivityType, OutboxEvent}
use tasks_platform.Database.Integrations.{WebhookEndpoint}
use tasks_platform.Database.Client.{Tables, Db, Result}
use tasks_platform.Webhooks.Service
use tasks_platform.Webhooks.Service.{
  UpdateWebhookEndpointInput, updated, with_secret, change_endpoint, create_endpoint,
  remove_endpoint,
}
use tasks_platform.Worker.Delivery.{FetchOutcome, Draws, deliver_webhook_attempt, on_failed}

pub data Operation : Type 0 where
  create : Result (Unit {0}) → ℕ → ℕ → String → ℕ → ℕ → String → List TaskActivityType → Operation
  update : (String → Result (Unit {0})) → WebhookEndpoint → UpdateWebhookEndpointInput → Operation
  rotate_secret : String → WebhookEndpoint → Operation
  remove : WebhookEndpoint → Operation
  send_test_event : Result (Unit {0}) → ℕ → ℕ → WebhookEndpoint → Operation
  deliver : (OutboxEvent → WebhookEndpoint → FetchOutcome) → Draws → ℕ → ℕ → ℕ → Operation
  failed : ℕ → ℕ → ℕ → Operation

module _ {t : Tables} (max : ℕ) where
  unfoldable pub run : Operation → Db t → Db t
  run (create checked id now secret org user url types) db =
      (Service.create checked id now secret org user url types db).1
  run (update check endpoint input) db = (Service.update check endpoint input db).1
  run (rotate_secret secret endpoint) db = (Service.rotate_secret secret endpoint db).1
  run (remove endpoint) db = (Service.remove endpoint db).1
  run (send_test_event queued id now endpoint) db =
      (Service.send_test_event queued id now endpoint db).1
  run (deliver fetch draws event_id endpoint_id attempt) db =
      (deliver_webhook_attempt fetch draws event_id endpoint_id attempt db).1
  run (failed made limit endpoint_id) db = (on_failed max made limit endpoint_id db).1

  unfoldable pub run_all : List Operation → Db t → Db t
  run_all [] db = db
  run_all (operation ∷ rest) db = run_all rest (run operation db)
