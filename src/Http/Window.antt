-- ===== src/Http/Window.antt =====
-- How many attempts of a client the rate limiter lets pass.
use tasks_platform.Common.{
  ℕ, zero, suc, ◌+◌, ◌-◌, ◌≤◌, ◌<◌, ◌≡◌, refl, sym, ◌∙◌, subst, String, Bool, true, false, List, [],
  ◌∷◌, arith, str_eq, eq_iff, if◌then◌else◌,
}
use tasks_platform.Http.Redis.{Redis}
use tasks_platform.Http.Attempt.{Lasts, Good, later-Good, rate_limiter-Step}
use tasks_platform.Http.RateLimit.{
  RateLimitConfig, answered, lost, Fates, Next, passed, refused, unavailable, send, decide,
  count_attempt, rate_limiter, Attempt, is_pass, passes,
}

module _ (redis : Redis) (config : RateLimitConfig) (enabled : config.enabled ≡ true)
    (positive : 0 < config.window_ms) where
  open redis use {State}

  -- Attempts at times from one on and before another, in order.
  abbrev pub Between : ℕ → ℕ → List Attempt → Type 0
  Between now end [] = Unit {0}
  Between now end (attempt ∷ rest) =
      (now ≤ attempt.now) × (attempt.now < end) × Between attempt.now end rest

  pass_at_most : (b : Bool) (next : Next) → (if b then is_pass next else 0) ≤ 1
  pass_at_most true passed = omega arith
  pass_at_most true (refused e) = omega arith
  pass_at_most false next = omega arith

  one_less :
      (p c after rest most : ℕ)
      → p ≤ 1
      → c + p ≤ after
      → (p ≡ 1 → after ≤ most)
      → rest ≤ most - after
      → p + rest ≤ most - c
  one_less zero c after rest most le more within left = omega arith
  one_less (suc zero) c after rest most le more within left = omega (arith, within refl)
  one_less (suc (suc p)) c after rest most le more within left = absurd (omega arith)

  passes_left :
      (k : String) (history : List Attempt) (now end : ℕ) (s : State)
      → Good redis config enabled positive k now end s
      → Between now end history
      → passes redis config k history s ≤ config.max_attempts - redis.count k now s
  unfolding passes
  passes_left k [] now end s good between = omega arith
  passes_left k (attempt ∷ rest) now end s good (le, lt, between) =
      let (good', same) =
        later-Good redis config enabled positive k now attempt.now end s le lt good in
      let next = rate_limiter redis config attempt.key attempt.now attempt.fates s in
      let (after, more, within) =
        rate_limiter-Step redis config enabled positive attempt.key k attempt.now end attempt.fates
          s good' in
      let left = passes_left k rest attempt.now end next.1 after between in
      subst (λ c. passes redis config k (attempt ∷ rest) s ≤ config.max_attempts - c) same
        (one_less _ (redis.count k attempt.now s) (redis.count k attempt.now next.1) _
          config.max_attempts (pass_at_most (str_eq k attempt.key) next.0) more within left)

  -- Where the limiter is on and a window has a positive length: of the attempts under a key that had no
  -- counter, made in order within one window's length of a time,
  -- with those under other keys between them, no more pass than the limit allows, whatever commands
  -- Redis does not answer.
  pub passes-window :
      (k : String) (history : List Attempt) (start : ℕ) (s : State)
      → redis.count k start s ≡ 0
      → Between start (start + config.window_ms) history
      → passes redis config k history s ≤ config.max_attempts
  passes-window k history start s fresh between =
      let none_yet = redis.expires_at_none k start s fresh in
      let left =
        passes_left k history start (start + config.window_ms) s
          (
            subst (λ o. Lasts redis config enabled positive o (start + config.window_ms))
                (sym none_yet) tt,
            λ _. omega arith,
          )
          between in
      omega arith

  unset_expiry :
      (k : String) (fates : Fates) (now : ℕ) (s : State)
      → redis.count k now s ≡ 0
      → fates.incr ≡ answered
      → fates.pexpire ≡ lost
      → rate_limiter redis config k now fates s ≡ (unavailable, (redis.incr k now s).1)
  unfolding rate_limiter count_attempt decide send
  unset_expiry k fates now s fresh did_incr lost_expiry =
      rw (enabled, did_incr, redis.incr_value k now s, fresh, lost_expiry) refl

  -- Where the limiter is on with a positive window and a positive limit: a first attempt for which the command that sets the expiry is lost is refused, and of all later
  -- attempts under its key, however long after, fewer than the limit pass in total.
  pub passes_locked :
      (k : String) (fates : Fates) (history : List Attempt) (now end : ℕ) (s : State)
      → redis.count k now s ≡ 0
      → fates.incr ≡ answered
      → fates.pexpire ≡ lost
      → 0 < config.max_attempts
      → Between now end history
      → ((rate_limiter redis config k now fates s).0 ≡ unavailable)
        × (passes redis config k history (rate_limiter redis config k now fates s).1
            < config.max_attempts)
  passes_locked k fates history now end s fresh did_incr lost_expiry limit between =
      let outcome = unset_expiry k fates now s fresh did_incr lost_expiry in
      let begun = redis.count-incr k k now s in
      let itself = (eq_iff k k).1 refl in
      let counted : redis.count k now (redis.incr k now s).1 ≡ 1 = ground arith in
      let forever = redis.expires_at-incr k k now s ∙ redis.expires_at_none k now s fresh in
      let left =
        passes_left k history now end (redis.incr k now s).1
          (
            subst (λ o. Lasts redis config enabled positive o end) (sym forever) tt,
            λ none_yet. absurd (omega arith),
          )
          between in
      rw outcome (refl, omega (arith, left, counted, limit))
