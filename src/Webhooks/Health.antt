-- ===== src/Webhooks/Health.antt =====
-- No endpoint that is on has reached the limit of failures, through any history of what the API
-- (apps/api/src/modules/webhooks) and the worker (apps/worker/src) do with endpoints.
use tasks_platform.Common.{
  ℕ, ◌<◌, ◌≡◌, inl, inr, refl, sym, subst, String, Bool, true, false, not, ◌&&◌, Option, none, some,
  List, [], ◌∷◌, arith, leb, ◌==◌, map_option, Option-cases, Bool-cases, if◌then◌else◌,
}
use tasks_platform.Database.Table.{Keeps, updated-some, get-updated, created-cases}
use tasks_platform.Database.Schema.{TaskActivityType, OutboxEvent}
use tasks_platform.Database.Integrations.{WebhookEndpoint}
use tasks_platform.Database.Client.{Tables, Db, Result, ok, err, pure, ◌>>◌}
use tasks_platform.Database.Steps.{Ends, held-then}
use tasks_platform.Database.Outcomes.{changed_last, stored_last, stored-then}
use tasks_platform.Webhooks.Service
use tasks_platform.Webhooks.Service.{
  UpdateWebhookEndpointInput, updated, with_secret, change_endpoint, create_endpoint,
  remove_endpoint,
}
use tasks_platform.Worker.Delivery.{
  FetchOutcome, result_of, Draws, skipped, attempt_found, reset_failures, record_chain_exhausted,
  deliver_webhook_attempt, attempt_on, record_delivery, on_failed, no_failures,
}
use tasks_platform.Worker.Failures.{counted, record_chain_exhausted-counted}
use tasks_platform.Webhooks.Operations.{
  Operation, create, update, rotate_secret, remove, send_test_event, deliver, failed, run, run_all,
}

abbrev pub Below : ℕ → WebhookEndpoint → Type 0
Below max endpoint = endpoint.enabled ≡ true → endpoint.consecutive_failures < max

updated-Below :
    (max : ℕ) (input : UpdateWebhookEndpointInput) (endpoint : WebhookEndpoint)
    → 0 < max
    → Below max endpoint
    → Below max (updated input endpoint)
unfolding updated
updated-Below max input endpoint positive below on = ground (arith, below)

updated-Keeps :
    (t : Tables) (input : UpdateWebhookEndpointInput) → Keeps t.webhook_endpoint (updated input)
unfolding updated
updated-Keeps t input = (λ r. refl, λ r x h. h)

module _ (t : Tables) (max : ℕ) where
  -- Every endpoint that is on has fewer failures in a row than the limit.
  abbrev pub Healthy : Db t → Type 0
  Healthy db =
      (k : ℕ) (endpoint : WebhookEndpoint)
      → t.webhook_endpoint.get k db.webhook_endpoints ≡ some endpoint
      → Below max endpoint

  changed-Healthy :
      (id : ℕ) (f : WebhookEndpoint → WebhookEndpoint) (db after : Db t)
      → ((endpoint : WebhookEndpoint) → Below max endpoint → Below max (f endpoint))
      → ((k : ℕ)
          → t.webhook_endpoint.get k after.webhook_endpoints ≡ (
              if k == id
              then map_option f (t.webhook_endpoint.get k db.webhook_endpoints)
              else t.webhook_endpoint.get k db.webhook_endpoints))
      → Healthy db
      → Healthy after
  changed-Healthy id f db after step rows healthy k x there =
      elim (Option-cases (t.webhook_endpoint.get k db.webhook_endpoints)) [
        | inl absent ↦ absurd (ground (arith, rows k))
        | inr (endpoint, found) ↦ elim (Bool-cases (k == id)) [
          | inl here ↦
              let is : x ≡ f endpoint = ground (arith, rows k) in
              subst (Below max) (sym is) (step endpoint (healthy k endpoint found))
          | inr elsewhere ↦ healthy k x (ground (arith, rows k))
        ]
      ]

  change_endpoint-Healthy :
      (id : ℕ) (f : WebhookEndpoint → WebhookEndpoint) (db : Db t)
      → Keeps t.webhook_endpoint f
      → ((endpoint : WebhookEndpoint) → Below max endpoint → Below max (f endpoint))
      → Healthy db
      → Ends (λ r. Healthy r.1) (change_endpoint id f db)
  unfolding change_endpoint
  change_endpoint-Healthy id f db keeps step healthy =
      changed_last db _ _ (λ _. record { holds = healthy })
        λ a rows e.
          let (_, _, _, same) = updated-some t.webhook_endpoint id f db.webhook_endpoints keeps e in
          record {
            holds =
                changed-Healthy id f db (record db { webhook_endpoints = rows }) step
                  (λ k. rw same (get-updated t.webhook_endpoint id k f db.webhook_endpoints keeps))
                  healthy;
          }

  create-Healthy :
      (checked : Result (Unit {0})) (id now : ℕ) (secret : String) (org user : ℕ) (url : String)
      (types : List TaskActivityType) (db : Db t)
      → 0 < max
      → Healthy db
      → Ends (λ r. Healthy r.1) (Service.create checked id now secret org user url types db)
  unfolding Service.create create_endpoint
  create-Healthy (err e) id now secret org user url types db positive healthy = record {
    holds = healthy;
  }
  create-Healthy (ok done) id now secret org user url types db positive healthy =
      stored_last db _ _ _ (λ _. record { holds = healthy })
        λ rows e. record {
          holds = λ k x there.
              elim (created-cases t.webhook_endpoint _ db.webhook_endpoints rows k x e there) [
                | inl new ↦ subst (Below max) (sym new) (λ _. positive)
                | inr old ↦ healthy k x old
              ];
        }

  update-Healthy :
      (check : String → Result (Unit {0})) (endpoint : WebhookEndpoint)
      (input : UpdateWebhookEndpointInput) (db : Db t)
      → 0 < max
      → Healthy db
      → Ends (λ r. Healthy r.1) (Service.update check endpoint input db)
  unfolding Service.update
  update-Healthy check endpoint input db positive healthy =
      held-then Healthy _ _ (checked input.url) λ _ d healthy'.
        change_endpoint-Healthy endpoint.id (updated input) d (updated-Keeps t input)
          (λ x. updated-Below max input x positive) healthy'
    where
      asked : (o : Result (Unit {0})) → Ends (λ r. Healthy r.1) (o, db)
      asked o = record { holds = healthy }

      checked : (o : Option String) → Ends (λ r. Healthy r.1) (Service.check_given check o db)
      checked none = record { holds = healthy }
      checked (some url) = asked (check url)

  remove-Healthy :
      (id : ℕ) (db : Db t) → Healthy db → Ends (λ r. Healthy r.1) (remove_endpoint id db)
  unfolding remove_endpoint
  remove-Healthy id db healthy =
      stored_last db _ _ _ (λ _. record { holds = healthy })
        λ rows e. record {
          holds = λ k x there.
              healthy k x
                (ground (arith, t.webhook_endpoint.get-delete id k db.webhook_endpoints rows e));
        }

  send_test_event-Healthy :
      (queued : Result (Unit {0})) (id now : ℕ) (endpoint : WebhookEndpoint) (db : Db t)
      → Healthy db
      → Ends (λ r. Healthy r.1) (Service.send_test_event queued id now endpoint db)
  unfolding Service.send_test_event
  send_test_event-Healthy queued id now endpoint db healthy =
      stored-then db _ _ _ _ (λ _. record { holds = healthy }) λ rows e. record { holds = healthy }

  reset-Healthy :
      (fetch : OutboxEvent → WebhookEndpoint → FetchOutcome) (success : Bool)
      (endpoint : WebhookEndpoint) (db : Db t)
      → 0 < max
      → Healthy db
      → Ends (λ r. Healthy r.1) (reset_failures fetch success endpoint db)
  reset-Healthy fetch success endpoint db positive healthy =
      tested (success && not (endpoint.consecutive_failures == 0))
    where
      tested :
          (b : Bool)
          → Ends
              (λ r. Healthy r.1)
              ((if b then (change_endpoint endpoint.id no_failures >> pure tt) else pure tt) db)
      tested true =
          held-then Healthy _ _
            (change_endpoint-Healthy endpoint.id no_failures db ((λ r. refl), λ r x h. h)
              (λ x _ _. positive) healthy)
            (λ _ d healthy'. record { holds = healthy' })
      tested false = record { holds = healthy }

  attempt_on-Healthy :
      (fetch : OutboxEvent → WebhookEndpoint → FetchOutcome) (draws : Draws) (attempt : ℕ)
      (event : OutboxEvent) (endpoint : WebhookEndpoint) (db : Db t)
      → 0 < max
      → Healthy db
      → Ends (λ r. Healthy r.1) (attempt_on fetch draws attempt event endpoint db)
  unfolding attempt_on record_delivery
  attempt_on-Healthy fetch draws attempt event endpoint db positive healthy =
      stored-then db _ _ _ _ (λ _. record { holds = healthy })
        λ rows e.
          held-then Healthy _ (λ _. pure (result_of (fetch event endpoint)))
            (reset-Healthy fetch (result_of (fetch event endpoint)).success endpoint
              (record db { webhook_deliveries = rows }) positive healthy)
            (λ _ d healthy'. record { holds = healthy' })

  deliver-Healthy :
      (fetch : OutboxEvent → WebhookEndpoint → FetchOutcome) (draws : Draws)
      (event_id endpoint_id attempt : ℕ) (db : Db t)
      → 0 < max
      → Healthy db
      → Ends
          (λ r. Healthy r.1)
          (deliver_webhook_attempt fetch draws event_id endpoint_id attempt db)
  unfolding deliver_webhook_attempt
  deliver-Healthy fetch draws event_id endpoint_id attempt db positive healthy =
      found (t.outbox_event.get event_id db.outbox_events)
        (t.webhook_endpoint.get endpoint_id db.webhook_endpoints)
    where
      when_on :
          (event : OutboxEvent) (endpoint : WebhookEndpoint) (b : Bool)
          → Ends
              (λ r. Healthy r.1)
              ((if b then attempt_on fetch draws attempt event endpoint else pure skipped) db)
      when_on event endpoint true =
          attempt_on-Healthy fetch draws attempt event endpoint db positive healthy
      when_on event endpoint false = record { holds = healthy }

      found :
          (event : Option OutboxEvent) (endpoint : Option WebhookEndpoint)
          → Ends (λ r. Healthy r.1) (attempt_found fetch draws attempt event endpoint db)
      found none endpoint = record { holds = healthy }
      found (some event) none = record { holds = healthy }
      found (some event) (some endpoint) = when_on event endpoint endpoint.enabled

  counted-Below :
      (endpoint : WebhookEndpoint) → Below max endpoint → Below max (counted max endpoint)
  counted-Below endpoint below on = ground (arith, below)

  on_failed-Healthy :
      (made limit id : ℕ) (db : Db t) → Healthy db → Healthy (on_failed max made limit id db).1
  unfolding on_failed
  on_failed-Healthy made limit id db healthy = elim (Bool-cases (leb limit made)) [
    | inl last ↦ rw last (
        changed-Healthy id (counted max) db (record_chain_exhausted max id db).1 counted-Below
          (λ k. record_chain_exhausted-counted t max id k db) healthy)
    | inr more ↦ rw more healthy
  ]

  run-Healthy :
      (operation : Operation) (db : Db t) → 0 < max → Healthy db → Healthy (run max operation db)
  unfolding run Service.rotate_secret Service.remove
  run-Healthy (create checked id now secret org user url types) db positive healthy =
      (create-Healthy checked id now secret org user url types db positive healthy).holds
  run-Healthy (update check endpoint input) db positive healthy =
      (update-Healthy check endpoint input db positive healthy).holds
  run-Healthy (rotate_secret secret endpoint) db positive healthy =
      (change_endpoint-Healthy endpoint.id (with_secret secret) db ((λ r. refl), λ r x h. h)
        (λ x below. below) healthy).holds
  run-Healthy (remove endpoint) db positive healthy = (remove-Healthy endpoint.id db healthy).holds
  run-Healthy (send_test_event queued id now endpoint) db positive healthy =
      (send_test_event-Healthy queued id now endpoint db healthy).holds
  run-Healthy (deliver fetch draws event_id endpoint_id attempt) db positive healthy =
      (deliver-Healthy fetch draws event_id endpoint_id attempt db positive healthy).holds
  run-Healthy (failed made limit id) db positive healthy =
      on_failed-Healthy made limit id db healthy

  -- Whatever the API and the worker do with endpoints, one after another, no endpoint that is on has as many
  -- failures in a row as the limit, if that was so before and the limit is not zero.
  pub run_all-Healthy :
      (operations : List Operation) (db : Db t)
      → 0 < max
      → Healthy db
      → Healthy (run_all max operations db)
  unfolding run_all
  run_all-Healthy [] db positive healthy = healthy
  run_all-Healthy (operation ∷ rest) db positive healthy =
      run_all-Healthy rest (run max operation db) positive
        (run-Healthy operation db positive healthy)
