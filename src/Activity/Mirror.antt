-- ===== src/Activity/Mirror.antt =====
-- The log and the outbox tell of the same changes, and of nothing else.
use tasks_platform.Common.{
  ℕ, suc, ◌+◌, ◌≡◌, refl, sym, subst, inl, inr, Bool, true, false, Option, none, some, List, [],
  ◌∷◌, ◌==◌, is_some, if◌then◌else◌,
}
use tasks_platform.Authorization.Actor.{Actor, user, api_key, actor_columns}
use tasks_platform.Database.Schema.{
  TaskActivity, EventActor, user_actor, api_key_actor, Payload, task_event, webhook_test,
  OutboxEvent,
}
use tasks_platform.Database.Table.{created-new, created-old, created-cases}
use tasks_platform.Database.Client.{Tables, Db}
use tasks_platform.Database.Steps.{Ends}
use tasks_platform.Database.Outcomes.{OnOk, stored-then, stored_last, ok-then, ok-weaken}
use tasks_platform.Activity.Service.{
  Generated, RecordActivityInput, event_actor, activity_row, event_row, record_activity,
  record_event, record_change, record_changes,
}

-- An entry's actor, in the form that the payload of an event has; none if it had two or none.
abbrev pub actor_of : Option ℕ → Option ℕ → Option EventActor
actor_of (some id) none = some (user_actor id)
actor_of none (some id) = some (api_key_actor id)
actor_of none none = none
actor_of (some id) (some key) = none

-- The event says what the entry says, whatever the time that it names.
abbrev pub Mirrors : TaskActivity → OutboxEvent → Type 0
Mirrors a e =
    (actor : EventActor) × (at : ℕ) × (actor_of a.actor_id a.api_key_actor_id ≡ some actor)
    × (e.type ≡ some a.type)
    × (e.payload ≡ task_event a.task_id a.type a.before a.after actor at)

-- Does a row of the outbox tell of a task?
abbrev pub is_task_event : Payload → Bool
is_task_event (task_event id type before after actor at) = true
is_task_event (webhook_test id) = false

-- The columns of an actor are one of the two, so that `record` never throws for them.
pub one_actor :
    (actor : Actor)
    → (actor_of (actor_columns actor).user_id (actor_columns actor).api_key_id
        ≡ some (event_actor actor))
      × (((if is_some (actor_columns actor).user_id then 1 else 0)
              + (if is_some (actor_columns actor).api_key_id then 1 else 0)
            == 1)
          ≡ true)
one_actor (user id role) = (refl, refl)
one_actor (api_key id scopes) = (refl, refl)

module _ (t : Tables) where
  -- Every entry has its event and every task's event its entry, with one actor, in these two tables.
  abbrev pub Mirrored : t.task_activity.Rows → t.outbox_event.Rows → Type 0
  Mirrored activities events =
      ((k : ℕ) (a : TaskActivity)
        → t.task_activity.get k activities ≡ some a
        → (j : ℕ) × (e : OutboxEvent) × (t.outbox_event.get j events ≡ some e) × Mirrors a e)
      × ((j : ℕ) (e : OutboxEvent)
          → t.outbox_event.get j events ≡ some e
          → is_task_event e.payload ≡ true
          → (k : ℕ) × (a : TaskActivity) × (t.task_activity.get k activities ≡ some a)
            × Mirrors a e)

  -- What a sequence of entries leaves: each has its two rows, and nothing else is touched.
  abbrev pub Recorded : (ℕ → Generated) → List RecordActivityInput → Db t → Db t → Type 0
  Recorded g [] db after = after ≡ db
  Recorded g (entry ∷ rest) db after =
      (activities : t.task_activity.Rows) × (events : t.outbox_event.Rows) × (t.task_activity.create
          (activity_row (g 0) entry) db.activities
        ≡ some activities)
      × (t.outbox_event.create (event_row (g 0) entry) db.outbox_events ≡ some events)
      × Recorded (λ n. g (suc n)) rest
          (record db { activities = activities; outbox_events = events }) after

  record_change-Written :
      (g : Generated) (input : RecordActivityInput) (db : Db t)
      → Ends
          (OnOk (λ _ after.
            (activities : t.task_activity.Rows) × (events : t.outbox_event.Rows)
            × (t.task_activity.create (activity_row g input) db.activities ≡ some activities)
            × (t.outbox_event.create (event_row g input) db.outbox_events ≡ some events)
            × (after ≡ record db { activities = activities; outbox_events = events })))
          (record_change g input db)
  unfolding record_change record_activity record_event
  record_change-Written g input db = rw (one_actor input.actor).1 (
      stored-then db _ _ _ _ (λ _. record { holds = tt })
        λ activities a.
          stored_last (record db { activities = activities }) _ _ _ (λ _. record { holds = tt })
            λ events e. record { holds = (activities, events, a, e, refl) })

  pub record_changes-Recorded :
      (g : ℕ → Generated) (entries : List RecordActivityInput) (db : Db t)
      → Ends (OnOk (λ _. Recorded g entries db)) (record_changes g entries db)
  unfolding record_changes
  record_changes-Recorded g [] db = record { holds = refl }
  record_changes-Recorded g (entry ∷ rest) db =
      ok-then _ _ (record_change-Written (g 0) entry db) λ _ middle (activities, events, a, e, is).
        ok-weaken _ (record_changes-Recorded (λ n. g (suc n)) rest middle) λ _ after recorded. (
          activities,
          events,
          a,
          e,
          subst (λ d. Recorded (λ n. g (suc n)) rest d after) is recorded,
        )

  pub record_one-Recorded :
      (g : ℕ → Generated) (entry : RecordActivityInput) (db : Db t)
      → Ends (OnOk (λ _. Recorded g (entry ∷ []) db)) (record_change (g 0) entry db)
  record_one-Recorded g entry db =
      ok-weaken _ (record_change-Written (g 0) entry db) λ _ after written. written

  -- Only the two tables are written.
  pub Recorded-frame :
      (g : ℕ → Generated) (entries : List RecordActivityInput) (db after : Db t)
      → Recorded g entries db after
      → after ≡ record db { activities = after.activities; outbox_events = after.outbox_events }
  Recorded-frame g [] db after same =
      subst (λ d. d ≡ record db { activities = d.activities; outbox_events = d.outbox_events })
        (sym same) refl
  Recorded-frame g (entry ∷ rest) db after (activities, events, a, e, later) =
      Recorded-frame (λ n. g (suc n)) rest
        (record db { activities = activities; outbox_events = events }) after later

  -- The two rows of a change keep the mirror whole.
  pub written-Mirrored :
      (g : Generated) (input : RecordActivityInput) (db : Db t) (activities : t.task_activity.Rows)
      (events : t.outbox_event.Rows)
      → t.task_activity.create (activity_row g input) db.activities ≡ some activities
      → t.outbox_event.create (event_row g input) db.outbox_events ≡ some events
      → Mirrored db.activities db.outbox_events
      → Mirrored activities events
  written-Mirrored g input db activities events a e (forth, back) =
      let told = (one_actor input.actor).0 in
      let new_entry =
        created-new t.task_activity (activity_row g input) db.activities activities a in
      let new_event = created-new t.outbox_event (event_row g input) db.outbox_events events e in
      (
        λ k x found.
            elim (created-cases t.task_activity (activity_row g input) db.activities activities k x
              a found) [
                | inl new ↦ (
                  g.event_id,
                  event_row g input,
                  new_event,
                  subst (λ y. Mirrors y (event_row g input)) (sym new)
                      (event_actor input.actor, g.now, told, refl, refl),
                )
                | inr old ↦
                    let (j, y, there, mirrors) = forth k x old in
                    (
                      j,
                      y,
                      created-old t.outbox_event (event_row g input) db.outbox_events events j e
                          there,
                      mirrors,
                    )
              ],
        λ j y found task.
            elim (created-cases t.outbox_event (event_row g input) db.outbox_events events j y e
              found) [
                | inl new ↦ (
                  g.activity_id,
                  activity_row g input,
                  new_entry,
                  subst (Mirrors (activity_row g input)) (sym new)
                      (event_actor input.actor, g.now, told, refl, refl),
                )
                | inr old ↦
                    let (k, x, there, mirrors) = back j y old task in
                    (
                      k,
                      x,
                      created-old t.task_activity (activity_row g input) db.activities activities k
                          a there,
                      mirrors,
                    )
              ],
      )

  -- Entries that are recorded together keep the mirror whole.
  pub Recorded-Mirrored :
      (g : ℕ → Generated) (entries : List RecordActivityInput) (db after : Db t)
      → Recorded g entries db after
      → Mirrored db.activities db.outbox_events
      → Mirrored after.activities after.outbox_events
  Recorded-Mirrored g [] db after same mirrored =
      subst (λ d. Mirrored d.activities d.outbox_events) (sym same) mirrored
  Recorded-Mirrored g (entry ∷ rest) db after (activities, events, a, e, later) mirrored =
      Recorded-Mirrored (λ n. g (suc n)) rest
        (record db { activities = activities; outbox_events = events }) after later
        (written-Mirrored (g 0) entry db activities events a e mirrored)
