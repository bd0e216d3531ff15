-- ===== src/Worker/Failures.antt =====
-- How failures are counted, and when an endpoint is switched off.
use tasks_platform.Common.{
  ℕ, zero, suc, ◌+◌, ◌≡◌, inl, inr, refl, ap, ◌&&◌, none, some, arith, ltb, leb, ◌==◌, map_option,
  Option-cases, Bool-cases, if◌then◌else◌,
}
use tasks_platform.Database.Table.{Keeps, update-found, update-missing, get-updated}
use tasks_platform.Database.Integrations.{WebhookEndpoint}
use tasks_platform.Database.Client.{Tables, Db, ok, err, changed, prisma_error}
use tasks_platform.Webhooks.Service.{change_endpoint}
use tasks_platform.Worker.Delivery.{
  one_more_failure, switched_off, switch_off_if_due, record_chain_exhausted,
}

-- What an exhausted chain makes of its endpoint.
abbrev pub counted : ℕ → WebhookEndpoint → WebhookEndpoint
counted max endpoint =
    let n = endpoint.consecutive_failures + 1 in
    if endpoint.enabled && leb max n
    then switched_off n (one_more_failure endpoint)
    else one_more_failure endpoint

module _ (t : Tables) where
  change_endpoint_found :
      (id : ℕ) (f : WebhookEndpoint → WebhookEndpoint) (db : Db t) {endpoint : WebhookEndpoint}
      → Keeps t.webhook_endpoint f
      → t.webhook_endpoint.get id db.webhook_endpoints ≡ some endpoint
      → change_endpoint id f db ≡ (
        ok (f endpoint),
        record db {
          webhook_endpoints =
              t.webhook_endpoint.update_many (λ x. x.id == id) f db.webhook_endpoints;
        },
      )
  unfolding change_endpoint changed
  change_endpoint_found id f db keeps e =
      rw (update-found t.webhook_endpoint id f db.webhook_endpoints keeps e, changed) refl

  change_endpoint_missing :
      (id : ℕ) (f : WebhookEndpoint → WebhookEndpoint) (db : Db t)
      → Keeps t.webhook_endpoint f
      → t.webhook_endpoint.get id db.webhook_endpoints ≡ none
      → change_endpoint id f db ≡ (err prisma_error, db)
  unfolding change_endpoint changed
  change_endpoint_missing id f db keeps e =
      rw (update-missing t.webhook_endpoint id f db.webhook_endpoints keeps e, changed) refl

  ap_get :
      (j k : ℕ) (rows : t.webhook_endpoint.Rows)
      → j ≡ k
      → t.webhook_endpoint.get j rows ≡ t.webhook_endpoint.get k rows
  ap_get j k rows e = ap (λ i. t.webhook_endpoint.get i rows) e

  -- The second step, after the failure has been added.
  counted_row :
      (max id k : ℕ) (db : Db t) (endpoint : WebhookEndpoint)
      → t.webhook_endpoint.get id db.webhook_endpoints ≡ some endpoint
      → t.webhook_endpoint.get k
          (switch_off_if_due max (one_more_failure endpoint) (record db {
            webhook_endpoints =
                t.webhook_endpoint.update_many
                  (λ x. x.id == id)
                  one_more_failure
                  db.webhook_endpoints;
          })).1.webhook_endpoints
        ≡ (if k == id
            then map_option (counted max) (t.webhook_endpoint.get k db.webhook_endpoints)
            else t.webhook_endpoint.get k db.webhook_endpoints)
  counted_row max id k db endpoint there =
      let rows : t.webhook_endpoint.Rows =
        t.webhook_endpoint.update_many (λ x. x.id == id) one_more_failure db.webhook_endpoints in
      let n : ℕ = endpoint.consecutive_failures + 1 in
      let own : endpoint.id ≡ id =
        t.webhook_endpoint.get-key id db.webhook_endpoints endpoint there in
      let row = λ (j : ℕ).
        get-updated t.webhook_endpoint id j one_more_failure db.webhook_endpoints
          ((λ r. refl), λ r x h. h) in
      let at : t.webhook_endpoint.get endpoint.id rows ≡ some (one_more_failure endpoint) =
        ground (arith, row endpoint.id, ap_get endpoint.id id db.webhook_endpoints own) in
      elim (Bool-cases (endpoint.enabled && leb max n)) [
        | inl due ↦
            rw
              (
                due,
                change_endpoint_found endpoint.id (switched_off n)
                    (record db { webhook_endpoints = rows }) ((λ r. refl), λ r x h. h) at,
              )
              (ground (
                arith,
                row k,
                own,
                due,
                there,
                ap_get k id db.webhook_endpoints,
                get-updated t.webhook_endpoint endpoint.id k (switched_off n) rows
                    ((λ r. refl), λ r x h. h),
              ))
        | inr undue ↦
            rw undue (ground (arith, row k, undue, there, ap_get k id db.webhook_endpoints))
      ]

  -- An exhausted chain adds one to the failures of its endpoint, switches it off if it was on and the limit is
  -- reached, and changes no other endpoint.
  pub record_chain_exhausted-counted :
      (max id k : ℕ) (db : Db t)
      → t.webhook_endpoint.get k (record_chain_exhausted max id db).1.webhook_endpoints ≡ (
          if k == id
          then map_option (counted max) (t.webhook_endpoint.get k db.webhook_endpoints)
          else t.webhook_endpoint.get k db.webhook_endpoints)
  unfolding record_chain_exhausted
  record_chain_exhausted-counted max id k db =
      elim (Option-cases (t.webhook_endpoint.get id db.webhook_endpoints)) [
        | inl absent ↦
            rw (change_endpoint_missing id one_more_failure db ((λ r. refl), λ r x h. h) absent)
              (ground (arith, ap_get k id db.webhook_endpoints))
        | inr (endpoint, there) ↦
            rw (change_endpoint_found id one_more_failure db ((λ r. refl), λ r x h. h) there)
              (counted_row max id k db endpoint there)
      ]

  -- So many chains of deliveries to one endpoint that exhaust their attempts.
  unfoldable pub chains : ℕ → ℕ → ℕ → Db t → Db t
  chains zero max id db = db
  chains (suc n) max id db = chains n max id (record_chain_exhausted max id db).1

  -- After so many exhausted chains with no success between, an endpoint that was on just below the limit has
  -- as many more failures, and is on just while these are below the limit.
  record_chain_exhausted_limit :
      (n max id : ℕ) (db : Db t) (endpoint : WebhookEndpoint)
      → t.webhook_endpoint.get id db.webhook_endpoints ≡ some endpoint
      → endpoint.enabled ≡ ltb endpoint.consecutive_failures max
      → (last : WebhookEndpoint) × (t.webhook_endpoint.get id (chains n max id db).webhook_endpoints
          ≡ some last)
        × (last.consecutive_failures ≡ endpoint.consecutive_failures + n)
        × (last.enabled ≡ ltb (endpoint.consecutive_failures + n) max)
  unfolding chains
  record_chain_exhausted_limit zero max id db endpoint there on =
      (endpoint, there, omega arith, ground arith)
  record_chain_exhausted_limit (suc n) max id db endpoint there on =
      let (last, at, failures, is_on) =
        record_chain_exhausted_limit n max id (record_chain_exhausted max id db).1
          (counted max endpoint) (ground (arith, record_chain_exhausted-counted max id id db))
          (ground arith) in
      (last, at, ground arith, ground arith)
