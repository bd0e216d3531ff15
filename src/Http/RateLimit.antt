-- ===== src/Http/RateLimit.antt =====
-- apps/api/src/shared/http/rate-limit.middleware.ts. The time of a request, and which commands Redis does not
-- answer, are arguments.
use tasks_platform.Common.{
  ℕ, ◌+◌, ◌-◌, ◌/◌, String, Bool, not, Option, none, some, List, [], ◌∷◌, ◌==◌, ltb, str_eq,
  if◌then◌else◌,
}
use Prim.Native.Nat.{max}
use tasks_platform.Errors.{AppError, too_many_requests, service_unavailable}
use tasks_platform.Http.Redis.{Redis}

pub record RateLimitConfig : Type 0 where
  pub enabled : Bool
  pub window_ms : ℕ
  pub max_attempts : ℕ

-- Whether a command is answered, is lost, or is carried out without an answer. The last two throw.
pub data Fate : Type 0 where
  answered lost unanswered : Fate

pub record Fates : Type 0 where
  pub incr : Fate
  pub pexpire : Fate
  pub pttl : Fate

-- `next()` or `next(error)`
pub data Next : Type 0 where
  passed : Next
  refused : AppError → Next

abbrev pub unavailable : Next
unavailable =
    refused (service_unavailable (some "The service is temporarily unavailable, try again shortly"))

-- `pttl`: none for a negative answer, of a key that does not expire or is not there
abbrev pub remaining : Option ℕ → ℕ → Option ℕ
remaining none now = none
remaining (some at) now = some (at - now)

-- `ttlMs > 0 ? ttlMs : windowMs`
abbrev pub wait_ms : ℕ → Option ℕ → ℕ
wait_ms window_ms none = window_ms
wait_ms window_ms (some ttl) = if ltb 0 ttl then ttl else window_ms

-- `Math.max(1, Math.ceil(ms / 1000))`
abbrev pub retry_after : ℕ → ℕ
retry_after ms = max 1 ((ms + 999) / 1000)

pub record Attempt : Type 0 where
  pub key : String
  pub now : ℕ
  pub fates : Fates

abbrev pub is_pass : Next → ℕ
is_pass passed = 1
is_pass (refused e) = 0

module _ (redis : Redis) (config : RateLimitConfig) where
  open redis use {State}

  -- A command's answer, if there is one, and what it leaves.
  unfoldable pub send : {A : Type 0} → Fate → A × State → State → Option A × State
  send answered (a, after) before = (some a, after)
  send lost (a, after) before = (none, before)
  send unanswered (a, after) before = (none, after)

  unfoldable pub refuse_attempt : String → ℕ → Fate → State → Next × State
  refuse_attempt key now answered s = (
    refused (
        too_many_requests
          (retry_after (wait_ms config.window_ms (remaining (redis.expires_at key now s) now)))
          (some "Too many attempts, try again later")),
    s,
  )
  refuse_attempt key now lost s = (unavailable, s)
  refuse_attempt key now unanswered s = (unavailable, s)

  -- From the test of the count on.
  unfoldable pub decide : String → ℕ → Fates → ℕ → Option (Unit {0}) × State → Next × State
  unfolding refuse_attempt
  decide key now fates count (none, s) = (unavailable, s)
  decide key now fates count (some _, s) =
      if ltb config.max_attempts count then refuse_attempt key now fates.pttl s else (passed, s)

  unfoldable pub count_attempt : String → ℕ → Fates → Option ℕ × State → Next × State
  unfolding decide send
  count_attempt key now fates (none, s) = (unavailable, s)
  count_attempt key now fates (some count, s) = decide key now fates count (
      if count == 1
      then send fates.pexpire (tt, redis.pexpire key config.window_ms now s) s
      else (some tt, s))

  unfoldable pub rate_limiter : String → ℕ → Fates → State → Next × State
  unfolding count_attempt send
  rate_limiter key now fates s =
      if not config.enabled
      then (passed, s)
      else count_attempt key now fates (send fates.incr (redis.incr key now s) s)

  -- How many attempts under a key pass, of attempts one after another.
  unfoldable pub passes : String → List Attempt → State → ℕ
  unfolding rate_limiter
  passes key [] s = 0
  passes key (attempt ∷ rest) s =
      (if str_eq key attempt.key
        then is_pass (rate_limiter attempt.key attempt.now attempt.fates s).0
        else 0)
      + passes key rest (rate_limiter attempt.key attempt.now attempt.fates s).1
