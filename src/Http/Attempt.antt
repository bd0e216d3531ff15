-- ===== src/Http/Attempt.antt =====
-- What one attempt makes of the counter of a key.
use tasks_platform.Common.{
  ℕ, ◌+◌, ◌≤◌, ◌<◌, ◌≡◌, inl, inr, refl, sym, ap, ◌∙◌, subst, String, true, false, Option, none,
  some, arith, ◌==◌, ltb, str_eq, eq_iff, Bool-cases, if◌then◌else◌,
}
use tasks_platform.Http.Redis.{Redis, expired}
use tasks_platform.Http.RateLimit.{
  RateLimitConfig, Fate, answered, lost, unanswered, Fates, Next, send, refuse_attempt, decide,
  count_attempt, rate_limiter, is_pass,
}

module _ (redis : Redis) (config : RateLimitConfig) (enabled : config.enabled ≡ true)
    (positive : 0 < config.window_ms) where
  open redis use {State}

  -- A key does not expire before a time.
  abbrev pub Lasts : Option ℕ → ℕ → Type 0
  Lasts none end = Unit {0}
  Lasts (some at) end = end ≤ at

  -- The counter of a key outlives a time, unless it is still to be started, in time for that.
  abbrev pub Good : String → ℕ → ℕ → State → Type 0
  Good k now end s =
      Lasts (redis.expires_at k now s) end
      × (redis.count k now s ≡ 0 → end ≤ now + config.window_ms)

  pub later-Good :
      (k : String) (now later end : ℕ) (s : State)
      → now ≤ later
      → later < end
      → Good k now end s
      → Good k later end s × (redis.count k later s ≡ redis.count k now s)
  later-Good k now later end s le lt (lasts, start) =
      let alive = still (redis.expires_at k now s) lasts in
      let same =
        redis.count_later k now later s le ∙ ap (λ b. if b then 0 else redis.count k now s) alive in
      let kept =
        redis.expires_at_later k now later s le
        ∙ ap (λ b. if b then none else redis.expires_at k now s) alive in
      (
        (
          subst (λ o. Lasts o end) (sym kept) lasts,
          λ none_yet. omega (arith, start (sym same ∙ none_yet)),
        ),
        same,
      )
    where
      still : (o : Option ℕ) → Lasts o end → expired o later ≡ false
      still none h = refl
      still (some at) h = ground arith

  incr-Good :
      (key k : String) (now end : ℕ) (s : State)
      → Good k now end s
      → Good k now end (redis.incr key now s).1
        × (redis.count k now (redis.incr key now s).1
            ≡ (if str_eq k key then redis.count k now s + 1 else redis.count k now s))
  incr-Good key k now end s (lasts, start) = elim (Bool-cases (str_eq k key)) [
    | inl same ↦
        let is : k ≡ key = (eq_iff k key).0 same in
        let counted =
          redis.count-incr key k now s
          ∙ ap (λ b. if b then redis.count key now s + 1 else redis.count k now s) same
          ∙ ap (λ j. redis.count j now s + 1) (sym is) in
        (
          (
            subst (λ o. Lasts o end) (sym (redis.expires_at-incr key k now s)) lasts,
            λ zero. absurd (omega arith),
          ),
          rw same counted,
        )
    | inr other ↦
        let counted =
          redis.count-incr key k now s
          ∙ ap (λ b. if b then redis.count key now s + 1 else redis.count k now s) other in
        (
          (
            subst (λ o. Lasts o end) (sym (redis.expires_at-incr key k now s)) lasts,
            λ zero. start (sym counted ∙ zero),
          ),
          rw other counted,
        )
  ]

  pexpire-Good :
      (key k : String) (now end : ℕ) (s : State)
      → 0 < redis.count key now s
      → (str_eq k key ≡ true → end ≤ now + config.window_ms)
      → Good k now end s
      → Good k now end (redis.pexpire key config.window_ms now s)
        × (redis.count k now (redis.pexpire key config.window_ms now s) ≡ redis.count k now s)
  pexpire-Good key k now end s there in_time (lasts, start) =
      let counted = redis.count-pexpire key k config.window_ms now s positive in
      let expires = redis.expires_at-pexpire key k config.window_ms now s positive there in
      (
        (
          subst (λ o. Lasts o end) (sym expires)
              (elim (Bool-cases (str_eq k key)) [
                | inl same ↦ rw same (in_time same)
                | inr other ↦ rw other lasts
              ]),
          λ zero. start (sym counted ∙ zero),
        ),
        counted,
      )

  -- What one attempt under a key leaves of the counter of a key, which was at `c`.
  abbrev pub Step : String → String → ℕ → ℕ → ℕ → Next × State → Type 0
  Step key k now end c (next, after) =
      Good k now end after
      × (c + (if str_eq k key then is_pass next else 0) ≤ redis.count k now after)
      × ((if str_eq k key then is_pass next else 0) ≡ 1
          → redis.count k now after ≤ config.max_attempts)

  decide-Step :
      (key k : String) (now end c count : ℕ) (fates : Fates) (o : Option (Unit {0})) (s : State)
      → Good k now end s
      → c ≤ redis.count k now s
      → (str_eq k key ≡ true → (redis.count k now s ≡ c + 1) × (count ≡ c + 1))
      → Step key k now end c (decide redis config key now fates count (o, s))
  unfolding decide refuse_attempt
  decide-Step key k now end c count fates none s good le counted =
      (good, ground arith, λ one. absurd (ground arith))
  decide-Step key k now end c count fates (some u) s good le counted =
      elim (Bool-cases (ltb config.max_attempts count)) [
        | inl over ↦ rw over (refusal fates.pttl)
        | inr within ↦ rw within (elim (Bool-cases (str_eq k key)) [
          | inl same ↦
              let (now_there, counter) = counted same in
              rw same (good, omega arith, λ _. ground arith)
          | inr other ↦ rw other (good, omega arith, λ one. absurd (omega arith))
        ])
      ]
    where
      refusal : (fate : Fate) → Step key k now end c (refuse_attempt redis config key now fate s)
      refusal answered = (good, ground arith, λ one. absurd (ground arith))
      refusal lost = (good, ground arith, λ one. absurd (ground arith))
      refusal unanswered = (good, ground arith, λ one. absurd (ground arith))

  count_attempt-Step :
      (key k : String) (now end : ℕ) (fates : Fates) (s : State)
      → Good k now end s
      → Step key k now end (redis.count k now s) (
          count_attempt redis config key now fates
            (send redis config fates.incr (redis.incr key now s) s))
  unfolding count_attempt send
  count_attempt-Step key k now end fates s good = sent fates.incr
    where
      s' : State
      s' = (redis.incr key now s).1

      facts :
          Good k now end s'
          × (redis.count k now s'
              ≡ (if str_eq k key then redis.count k now s + 1 else redis.count k now s))
      facts = incr-Good key k now end s good

      no_less : redis.count k now s ≤ redis.count k now s'
      no_less = let counter = facts.1 in ground arith

      counted :
          str_eq k key ≡ true
          → (redis.count k now s' ≡ redis.count k now s + 1)
            × ((redis.incr key now s).0 ≡ redis.count k now s + 1)
      counted same =
          let counter = facts.1 in
          (
            ground arith,
            redis.incr_value key now s
                ∙ ap (λ j. redis.count j now s + 1) (sym ((eq_iff k key).0 same)),
          )

      started :
          (redis.incr key now s).0 == 1 ≡ true
          → Good k now end (redis.pexpire key config.window_ms now s')
            × (redis.count k now (redis.pexpire key config.window_ms now s') ≡ redis.count k now s')
      started one =
          let own = redis.count-incr key key now s in
          let itself = (eq_iff key key).1 refl in
          pexpire-Good key k now end s' (ground arith)
            (λ same. let (_, is) = counted same in good.1 (ground arith)) facts.0

      opened :
          (redis.incr key now s).0 == 1 ≡ true
          → (fate : Fate)
          → Step key k now end (redis.count k now s) (
              decide redis config key now fates
                (redis.incr key now s).0
                (send redis config fate (tt, redis.pexpire key config.window_ms now s') s'))
      opened one lost = decide-Step key k now end _ _ fates none s' facts.0 no_less counted
      opened one unanswered =
          let (begun, same_count) = started one in
          decide-Step key k now end _ _ fates none _ begun (omega (arith, no_less, same_count))
            (λ same. (same_count ∙ (counted same).0, (counted same).1))
      opened one answered =
          let (begun, same_count) = started one in
          decide-Step key k now end _ _ fates (some tt) _ begun (omega (arith, no_less, same_count))
            (λ same. (same_count ∙ (counted same).0, (counted same).1))

      sent :
          (fate : Fate)
          → Step key k now end (redis.count k now s) (
              count_attempt redis config key now fates
                (send redis config fate (redis.incr key now s) s))
      sent lost = (good, ground arith, λ one. absurd (ground arith))
      sent unanswered = (facts.0, (let le = no_less in ground arith), λ one. absurd (ground arith))
      sent answered = elim (Bool-cases ((redis.incr key now s).0 == 1)) [
        | inl one ↦ rw one (opened one fates.pexpire)
        | inr more ↦
            rw more (decide-Step key k now end _ _ fates (some tt) s' facts.0 no_less counted)
      ]

  limiter_on :
      (key : String) (now : ℕ) (fates : Fates) (s : State)
      → rate_limiter redis config key now fates s
        ≡ count_attempt redis config key now fates
            (send redis config fates.incr (redis.incr key now s) s)
  unfolding rate_limiter
  limiter_on key now fates s = rw enabled refl

  pub rate_limiter-Step :
      (key k : String) (now end : ℕ) (fates : Fates) (s : State)
      → Good k now end s
      → Step key k now end (redis.count k now s) (rate_limiter redis config key now fates s)
  rate_limiter-Step key k now end fates s good =
      subst (Step key k now end (redis.count k now s)) (sym (limiter_on key now fates s))
        (count_attempt-Step key k now end fates s good)
