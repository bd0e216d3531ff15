-- ===== src/Worker/Claims.antt =====
-- What a cycle of the dispatcher claims.
use tasks_platform.Common.{
  ℕ, ◌≤◌, ◌<◌, ◌≡◌, inl, inr, refl, sym, ap, ◌∙◌, subst, Bool, true, Option, none, some, List, [],
  ◌∷◌, arith, ◌==◌, length, Among, DistinctKeys, if◌then◌else◌, Bool-cases, ==_iff, map_option,
}
use tasks_platform.Common.Ordered.{
  ordered-Among, ordered_keeps, ordered-DistinctKeys, take-Among, take-DistinctKeys, take_short,
  length-take,
}
use tasks_platform.Database.Schema.{OutboxEvent, OutboxEvent_key}
use tasks_platform.Database.Client.{Tables, Db, ok}
use tasks_platform.Worker.Dispatcher.{by_date, claimable, has_id, dispatched, batch, mark, claim}

has_id-Among :
    (es : List OutboxEvent) (x : OutboxEvent)
    → has_id es x ≡ true
    → (e : OutboxEvent) × Among e es × (e.id ≡ x.id)
unfolding has_id
has_id-Among [] x h = absurd (cc)
has_id-Among (e ∷ es) x h = elim (Bool-cases (e.id == x.id)) [
  | inl same ↦ (e, inl refl, (==_iff _ _).0 same)
  | inr other ↦ let (y, at, same) = has_id-Among es x (ground arith) in (y, inr at, same)
]

pub has_id_holds :
    (es : List OutboxEvent) (e x : OutboxEvent) → Among e es → e.id ≡ x.id → has_id es x ≡ true
unfolding has_id
has_id_holds [] e x h same = absurd h
has_id_holds (y ∷ ys) e x (inl here) same =
    rw ((==_iff y.id x.id).1 (ap OutboxEvent_key (sym here) ∙ same)) refl
has_id_holds (y ∷ ys) e x (inr later) same = rw (has_id_holds ys e x later same) (ground arith)

module _ (t : Tables) where
  module _ (batch_size : ℕ) (locked : OutboxEvent → Bool) (db : Db t) where
    -- The rows of a batch were there, waiting and not locked.
    pub batch-claimable :
        (e : OutboxEvent)
        → Among e (batch batch_size locked db)
        → (claimable locked e ≡ true) × (t.outbox_event.get e.id db.outbox_events ≡ some e)
    unfolding batch
    batch-claimable e h =
        t.outbox_event.find_many-row (claimable locked) db.outbox_events e
          (ordered-Among by_date _ e (take-Among batch_size _ e h))

    pub batch-DistinctKeys : DistinctKeys OutboxEvent_key (batch batch_size locked db)
    unfolding batch
    batch-DistinctKeys = take-DistinctKeys OutboxEvent_key batch_size _ (
        ordered-DistinctKeys by_date OutboxEvent_key _
          (t.outbox_event.find_many-DistinctKeys (claimable locked) db.outbox_events))

    -- A batch has at most the size that was asked for, and if it has less it has every event that waits and
    -- is not locked.
    batch_size_lem :
        (length (batch batch_size locked db) ≤ batch_size)
        × (length (batch batch_size locked db) < batch_size
            → (k : ℕ) (e : OutboxEvent) → t.outbox_event.get k db.outbox_events ≡ some e
            → claimable locked e ≡ true
            → Among e (batch batch_size locked db))
    unfolding batch
    batch_size_lem = (
      length-take batch_size _,
      λ short k e there waits. subst (Among e) (sym (take_short batch_size _ short)) (
          ordered_keeps by_date _ e
            (t.outbox_event.find_many-all (claimable locked) db.outbox_events k e there waits)),
    )

    -- A claim returns the batch and marks just its rows.
    pub claim_lem :
        (now : ℕ)
        → (after : Db t) × (claim now batch_size locked db
            ≡ (ok (batch batch_size locked db), after))
          × ((k : ℕ)
              → t.outbox_event.get k after.outbox_events
                ≡ map_option
                    (λ r. if has_id (batch batch_size locked db) r then dispatched now r else r)
                    (t.outbox_event.get k db.outbox_events))
    unfolding claim has_id dispatched
    claim_lem now = by_events (batch batch_size locked db)
      where
        unmarked :
            (o : Option OutboxEvent)
            → o ≡ map_option (λ r. if has_id [] r then dispatched now r else r) o
        unmarked none = refl
        unmarked (some r) = refl

        by_events :
            (events : List OutboxEvent)
            → (after : Db t) × (mark now events db ≡ (ok events, after))
              × ((k : ℕ)
                  → t.outbox_event.get k after.outbox_events
                    ≡ map_option
                        (λ r. if has_id events r then dispatched now r else r)
                        (t.outbox_event.get k db.outbox_events))
        by_events [] = (db, refl, λ k. unmarked (t.outbox_event.get k db.outbox_events))
        by_events (e ∷ es) = (
          _,
          refl,
          λ k.
              t.outbox_event.get-update_many (has_id (e ∷ es)) (dispatched now) (λ r. refl)
                (λ r x h. h) db.outbox_events k,
        )
