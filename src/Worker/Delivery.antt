-- ===== src/Worker/Delivery.antt =====
-- apps/worker/src/services/webhook-delivery.service.ts with processors/webhook-delivery.processor.ts and
-- the listener of failed deliveries in index.ts. What the HTTP call comes to is an argument: a signature is
-- computed for it and it is sent under a time limit. How often a failed job is run again is the queue's.
use Prim.Native.String.{String}
use tasks_platform.Common.{
  ℕ, zero, suc, ◌+◌, Bool, true, false, not, ◌&&◌, Option, none, some, ◌==◌, leb, is_some,
  if◌then◌else◌,
}
use tasks_platform.Database.Schema.{OutboxEvent}
use tasks_platform.Database.Integrations.{
  WebhookEndpoint, WebhookDelivery, DeliveryError, http_status, message,
}
use tasks_platform.Database.Client.{Tables, Action, pure, stored, ◌>>=◌, ◌>>◌}
use tasks_platform.Webhooks.Service.{change_endpoint}

-- What `fetch` and the reading of the body come to: a status with a body, or an error, after which a status
-- may be known.
pub data FetchOutcome : Type 0 where
  responded : ℕ → String → FetchOutcome
  threw : Option ℕ → String → FetchOutcome

-- `response.ok`
abbrev pub is_ok : ℕ → Bool
is_ok status = leb 200 status && leb status 299

abbrev pub status_of : FetchOutcome → Option ℕ
status_of (responded status body) = some status
status_of (threw status text) = status

unfoldable pub slice : ℕ → String → String
slice zero s = String.[]
slice (suc n) String.[] = String.[]
slice (suc n) (String.◌∷◌ c s) = String.◌∷◌ c (slice n s)

abbrev pub response_snippet_max_length : ℕ
response_snippet_max_length = 500

abbrev pub snippet_of : FetchOutcome → Option String
snippet_of (responded status body) = some (slice response_snippet_max_length body)
snippet_of (threw status text) = none

abbrev pub error_of : FetchOutcome → Option DeliveryError
error_of (responded status body) = if is_ok status then none else some (http_status status)
error_of (threw status text) = some (message text)

pub record DeliveryResult : Type 0 where
  pub success : Bool
  pub status_code : Option ℕ
  pub error : Option DeliveryError

-- Nothing to deliver, or nowhere to deliver it.
abbrev pub skipped : DeliveryResult
skipped = record { success = true; status_code = none; error = none }

abbrev pub result_of : FetchOutcome → DeliveryResult
result_of outcome = record {
  success = not (is_some (error_of outcome));
  status_code = status_of outcome;
  error = error_of outcome;
}

-- What the delivery's row draws: its key, the time and how long the call took.
pub record Draws : Type 0 where
  pub id : ℕ
  pub now : ℕ
  pub duration_ms : ℕ

abbrev pub delivery_row : Draws → OutboxEvent → WebhookEndpoint → ℕ → FetchOutcome → WebhookDelivery
delivery_row draws event endpoint attempt_number outcome = record {
  id = draws.id;
  endpoint_id = endpoint.id;
  outbox_event_id = event.id;
  attempt = attempt_number;
  status_code = status_of outcome;
  response_snippet = snippet_of outcome;
  error = error_of outcome;
  duration_ms = draws.duration_ms;
  created_at = draws.now;
}

abbrev pub no_failures : WebhookEndpoint → WebhookEndpoint
no_failures endpoint = record endpoint { consecutive_failures = 0 }

abbrev pub one_more_failure : WebhookEndpoint → WebhookEndpoint
one_more_failure endpoint = record endpoint {
  consecutive_failures = endpoint.consecutive_failures + 1;
}

abbrev pub switched_off : ℕ → WebhookEndpoint → WebhookEndpoint
switched_off failures endpoint = record endpoint {
  enabled = false;
  disabled_reason = some failures;
}

module _ {t : Tables} (fetch : OutboxEvent → WebhookEndpoint → FetchOutcome) where
  unfoldable pub record_delivery : WebhookDelivery → Action t (Unit {0})
  record_delivery row db =
      stored (t.webhook_delivery.create row db.webhook_deliveries)
        (λ rows. record db { webhook_deliveries = rows }) tt db

  abbrev pub reset_failures : Bool → WebhookEndpoint → Action t (Unit {0})
  reset_failures success endpoint =
      if success && not (endpoint.consecutive_failures == 0)
      then (change_endpoint endpoint.id no_failures >> pure tt)
      else pure tt

  unfoldable pub attempt_on : Draws → ℕ → OutboxEvent → WebhookEndpoint → Action t DeliveryResult
  attempt_on draws attempt_number event endpoint =
      let outcome = fetch event endpoint in
      do
        record_delivery (delivery_row draws event endpoint attempt_number outcome)
        reset_failures (result_of outcome).success endpoint
        pure (result_of outcome)

  -- `!event || !endpoint || !endpoint.enabled`
  abbrev pub attempt_found :
      Draws → ℕ → Option OutboxEvent → Option WebhookEndpoint → Action t DeliveryResult
  attempt_found draws attempt_number none endpoint = pure skipped
  attempt_found draws attempt_number (some event) none = pure skipped
  attempt_found draws attempt_number (some event) (some endpoint) =
      if endpoint.enabled then attempt_on draws attempt_number event endpoint else pure skipped

  unfoldable pub deliver_webhook_attempt : Draws → ℕ → ℕ → ℕ → Action t DeliveryResult
  deliver_webhook_attempt draws outbox_event_id webhook_endpoint_id attempt_number db =
      attempt_found draws attempt_number (t.outbox_event.get outbox_event_id db.outbox_events)
        (t.webhook_endpoint.get webhook_endpoint_id db.webhook_endpoints) db

module _ {t : Tables} (max_consecutive_failures : ℕ) where
  abbrev pub switch_off_if_due : WebhookEndpoint → Action t (Unit {0})
  switch_off_if_due endpoint =
      if endpoint.enabled && leb max_consecutive_failures endpoint.consecutive_failures
      then (change_endpoint endpoint.id (switched_off endpoint.consecutive_failures) >> pure tt)
      else pure tt

  unfoldable pub record_chain_exhausted : ℕ → Action t (Unit {0})
  record_chain_exhausted webhook_endpoint_id = do
    endpoint ← change_endpoint webhook_endpoint_id one_more_failure
    switch_off_if_due endpoint

  -- The listener of a failed job: the chain is exhausted at its last attempt.
  unfoldable pub on_failed : ℕ → ℕ → ℕ → Action t (Unit {0})
  on_failed attempts_made attempts_limit webhook_endpoint_id =
      if leb attempts_limit attempts_made
      then record_chain_exhausted webhook_endpoint_id
      else pure tt
