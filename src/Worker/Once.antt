-- ===== src/Worker/Once.antt =====
-- Every event is claimed at most once.
use tasks_platform.Common.{
  ℕ, ◌≡◌, ◌≢◌, ◌⊎◌, inl, inr, refl, sym, ap, ◌∙◌, subst, Bool, true, false, some, List, [], ◌∷◌,
  ◌++◌, arith, is_some, Among, DistinctKeys, map_option, if◌then◌else◌,
}
use tasks_platform.Database.Table.{created-old}
use tasks_platform.Database.Schema.{OutboxEvent, OutboxEvent_key}
use tasks_platform.Database.Client.{Tables, Db, Result, ok, err}
use tasks_platform.Database.Outcomes.{stored_last}
use tasks_platform.Activity.Service.{record_event}
use tasks_platform.Worker.Dispatcher.{has_id, dispatched, batch, claim}
use tasks_platform.Worker.Claims.{batch-claimable, batch-DistinctKeys, claim_lem, has_id_holds}

-- What happens to the outbox: a cycle of some dispatcher claims a batch, or a service records an event.
pub data Tick : Type 0 where
  cycle : ℕ → ℕ → (OutboxEvent → Bool) → Tick
  recorded : OutboxEvent → Tick

abbrev pub events_of : {t : Tables} → Result (List OutboxEvent) × Db t → List OutboxEvent
events_of (ok events, after) = events
events_of (err e, after) = []

-- The events that the cycles of a history claim, one after another.
module _ {t : Tables} where
  unfoldable pub claims : List Tick → Db t → List OutboxEvent
  claims [] db = []
  claims (cycle now batch_size locked ∷ rest) db =
      let r = claim now batch_size locked db in events_of r ++ claims rest r.1
  claims (recorded row ∷ rest) db = claims rest (record_event row db).1

append-Among :
    (xs ys : List OutboxEvent) (x : OutboxEvent) → Among x (xs ++ ys) → Among x xs ⊎ Among x ys
append-Among [] ys x h = inr h
append-Among (y ∷ xs) ys x (inl same) = inl (inl same)
append-Among (y ∷ xs) ys x (inr later) = elim (append-Among xs ys x later) [
  | inl here ↦ inl (inr here)
  | inr there ↦ inr there
]

append-DistinctKeys :
    (xs ys : List OutboxEvent)
    → DistinctKeys OutboxEvent_key xs
    → DistinctKeys OutboxEvent_key ys
    → ((x y : OutboxEvent) → Among x xs → Among y ys → y.id ≢ x.id)
    → DistinctKeys OutboxEvent_key (xs ++ ys)
append-DistinctKeys [] ys p q apart = q
append-DistinctKeys (x ∷ xs) ys (first, rest) q apart = (
  λ y h. elim (append-Among xs ys y h) [
    | inl here ↦ first y here
    | inr there ↦ apart x y (inl refl) there
  ],
  append-DistinctKeys xs ys rest q (λ a b here there. apart a b (inr here) there),
)

module _ (t : Tables) where
  -- An event that is dispatched.
  abbrev Settled : ℕ → Db t → Type 0
  Settled k db =
      (e : OutboxEvent) × (t.outbox_event.get k db.outbox_events ≡ some e)
      × (is_some e.dispatched_at ≡ true)

  recorded-Settled :
      (row : OutboxEvent) (k : ℕ) (db : Db t) → Settled k db → Settled k (record_event row db).1
  unfolding record_event
  recorded-Settled row k db (e, there, done) =
      (stored_last {Q = λ r. Settled k r.1} db _ _ _ (λ _. record { holds = (e, there, done) })
        λ rows made. record {
          holds = (e, created-old t.outbox_event row db.outbox_events rows k made there, done);
        }).holds

  still_done :
      (b : Bool) (now : ℕ) (e : OutboxEvent)
      → is_some e.dispatched_at ≡ true
      → is_some (if b then dispatched now e else e).dispatched_at ≡ true
  unfolding dispatched
  still_done true now e done = refl
  still_done false now e done = done

  marked :
      (now batch_size : ℕ) (locked : OutboxEvent → Bool) (k : ℕ) (db : Db t) (e : OutboxEvent)
      → t.outbox_event.get k db.outbox_events ≡ some e
      → t.outbox_event.get k (claim now batch_size locked db).1.outbox_events
        ≡ some (if has_id (batch batch_size locked db) e then dispatched now e else e)
  marked now batch_size locked k db e there =
      let (after, is, row) = claim_lem t batch_size locked db now in
      subst
        (λ (r : Result (List OutboxEvent) × Db t).
          t.outbox_event.get k r.1.outbox_events
          ≡ some (if has_id (batch batch_size locked db) e then dispatched now e else e))
        (sym is)
        (row k
          ∙ ap
              (map_option
                (λ r. if has_id (batch batch_size locked db) r then dispatched now r else r))
              there)

  claimed-Settled :
      (now batch_size : ℕ) (locked : OutboxEvent → Bool) (k : ℕ) (db : Db t)
      → Settled k db
      → Settled k (claim now batch_size locked db).1
  claimed-Settled now batch_size locked k db (e, there, done) =
      (_, marked now batch_size locked k db e there, still_done _ now e done)

  claimed_batch :
      (now batch_size : ℕ) (locked : OutboxEvent → Bool) (db : Db t)
      → events_of (claim now batch_size locked db) ≡ batch batch_size locked db
  claimed_batch now batch_size locked db =
      let (after, is, _) = claim_lem t batch_size locked db now in ap events_of is

  -- A claimed event is settled from then on.
  claim-settles :
      (now batch_size : ℕ) (locked : OutboxEvent → Bool) (db : Db t) (e : OutboxEvent)
      → Among e (batch batch_size locked db)
      → Settled e.id (claim now batch_size locked db).1
  unfolding dispatched
  claim-settles now batch_size locked db e here =
      let (_, there) = batch-claimable t batch_size locked db e here in
      (
        _,
        marked now batch_size locked e.id db e there,
        rw (has_id_holds (batch batch_size locked db) e e here refl) refl,
      )

  -- What a history claims was not settled at its start.
  claims_unsettled :
      (ticks : List Tick) (db : Db t) (e : OutboxEvent)
      → Among e (claims ticks db)
      → ¬ Settled e.id db
  unfolding claims
  claims_unsettled [] db e h settled = absurd h
  claims_unsettled (recorded row ∷ rest) db e h settled =
      claims_unsettled rest (record_event row db).1 e h (recorded-Settled row e.id db settled)
  claims_unsettled (cycle now batch_size locked ∷ rest) db e h settled =
      elim (append-Among (batch batch_size locked db) _ e (in_batch h)) [
        | inl here ↦
            let (waits, there) = batch-claimable t batch_size locked db e here in
            let (x, there', done) = settled in ground arith
        | inr later ↦
            claims_unsettled rest (claim now batch_size locked db).1 e later
              (claimed-Settled now batch_size locked e.id db settled)
      ]
    where
      in_batch :
          Among e (
            events_of (claim now batch_size locked db)
            ++ claims rest (claim now batch_size locked db).1)
          → Among e (batch batch_size locked db ++ claims rest (claim now batch_size locked db).1)
      in_batch g =
          subst (λ es. Among e (es ++ claims rest (claim now batch_size locked db).1))
            (claimed_batch now batch_size locked db) g

  -- However many cycles run, at whatever times, with whatever sizes and locks, and whatever is recorded between
  -- them, no event is claimed twice.
  pub claims-DistinctKeys :
      (ticks : List Tick) (db : Db t) → DistinctKeys OutboxEvent_key (claims ticks db)
  unfolding claims
  claims-DistinctKeys [] db = tt
  claims-DistinctKeys (recorded row ∷ rest) db = claims-DistinctKeys rest (record_event row db).1
  claims-DistinctKeys (cycle now batch_size locked ∷ rest) db =
      subst
        (λ es. DistinctKeys OutboxEvent_key (es ++ claims rest (claim now batch_size locked db).1))
        (sym (claimed_batch now batch_size locked db))
        (append-DistinctKeys (batch batch_size locked db) _
          (batch-DistinctKeys t batch_size locked db)
          (claims-DistinctKeys rest (claim now batch_size locked db).1)
          (λ x y here later same. claims_unsettled rest (claim now batch_size locked db).1 y later (
            subst (λ k. Settled k (claim now batch_size locked db).1) (sym same)
              (claim-settles now batch_size locked db x here))))
