-- ===== src/Examples/Security.antt =====
-- Signatures, the rate limiter, the redaction of paths, and a request to reset a password.
use Prim.Native.Nat.{zero, suc}
use Prim.Native.String.{◌++◌}
use tasks_platform.Common.{
  ℕ, ◌-◌, ◌≤◌, ◌<◌, ◌≡◌, ◌≢◌, ◌||◌, refl, ap, String, true, false, Option, none, some, [], ◌∷◌,
  arith, ltb, str_eq, eq_iff, Bool-cases, inl, inr, if◌then◌else◌, ◌==◌,
}
use tasks_platform.Security.Split.{lacks}
use tasks_platform.Security.Signature.{
  Platform, verified, timestamp_outside_tolerance, sign_webhook_payload, verify_webhook_signature,
}
use tasks_platform.Security.Verified.{verify-sign}
use tasks_platform.Http.RateLimit.{
  RateLimitConfig, answered, lost, Fates, unavailable, rate_limiter, Attempt, passes,
}
use tasks_platform.Http.Window.{passes-window, passes_locked}
use tasks_platform.Http.Memory.{Entries, memory_redis}
use tasks_platform.Http.Redact.{
  is_segment, begins_segment, redact_token_paths, redact_token_paths-token,
}
use tasks_platform.Database.Schema.{User}
use tasks_platform.Database.Client.{Db, ok}
use tasks_platform.Database.Steps.{Ends}
use tasks_platform.Database.Instance.{memory_tables, empty_db}
use tasks_platform.Worker.ResetRequest.{
  Handled, handle_password_reset_request, handle_password_reset_request-Handled,
}

-- A number is printed as so many signs, and every digest is the same.
signs : ℕ → String
signs zero = ""
signs (suc n) = String.◌∷◌ "x" (signs n)

size : String → ℕ
size String.[] = 0
size (String.◌∷◌ c s) = suc (size s)

abbrev print : ℕ → String
print n = String.◌∷◌ "x" (signs n)

abbrev parse : String → Option ℕ
parse String.[] = none
parse (String.◌∷◌ c s) = some (size s)

size-signs : (n : ℕ) → size (signs n) ≡ n
unfolding size signs
size-signs zero = refl
size-signs (suc n) = ap suc (size-signs n)

abbrev js : Platform
js = record {
  Number = ℕ;
  to_number = parse;
  print = print;
  apart = λ a b c. ltb c (a - b) || ltb c (b - a);
  hmac = λ secret text. "ab";
  from_hex = λ text. if str_eq text "ab" then 171 ∷ [] else [];
}

parse-print : (n : ℕ) → js.to_number (js.print n) ≡ some n
parse-print n = ap some (size-signs n)

lacks-signs : (c : ℕ) → c ≢ b'x' → (n : ℕ) → lacks c (signs n) ≡ true
unfolding lacks signs
lacks-signs c other zero = refl
lacks-signs c other (suc n) = ground (arith, lacks-signs c other n)

print-Plain :
    (n : ℕ)
    → (lacks b',' (js.print n) ≡ true)
      × (lacks b'=' (js.print n) ≡ true)
      × (str_eq (js.print n) "" ≡ false)
unfolding lacks
print-Plain n =
    let filled : str_eq (js.print n) "" ≡ false = elim (Bool-cases (str_eq (js.print n) "")) [
      | inl empty ↦ absurd (cc ((eq_iff (js.print n) "").0 empty))
      | inr other ↦ other
    ] in
    (lacks-signs b',' (omega arith) n, lacks-signs b'=' (omega arith) n, filled)

hmac-Plain :
    (secret text : String)
    → (lacks b',' (js.hmac secret text) ≡ true)
      × (lacks b'=' (js.hmac secret text) ≡ true)
      × (str_eq (js.hmac secret text) "" ≡ false)
unfolding lacks
hmac-Plain secret text = (refl, refl, refl)

verify-sign_example :
    verify_webhook_signature js "secret" "body"
      (sign_webhook_payload js "secret" "body" 5).header
      3
      7
    ≡ (if js.apart 7 5 3 then timestamp_outside_tolerance else verified)
verify-sign_example = verify-sign js parse-print print-Plain hmac-Plain "secret" "body" 5 3 7

abbrev config : RateLimitConfig
config = record { enabled = true; window_ms = 1000; max_attempts = 2 }

abbrev works : Fates
works = record { incr = answered; pexpire = answered; pttl = answered }

abbrev no_expiry : Fates
no_expiry = record { incr = answered; pexpire = lost; pttl = answered }

abbrev at : ℕ → Attempt
at now = record { key = "login:1.2.3.4"; now = now; fates = works }

abbrev nothing : Entries
nothing k = none

-- Four attempts within a second.
passes-window_example :
    passes memory_redis config "login:1.2.3.4" (at 5 ∷ (at 6 ∷ (at 7 ∷ (at 900 ∷ [])))) nothing ≤ 2
passes-window_example =
    passes-window memory_redis config refl (omega arith) "login:1.2.3.4"
      (at 5 ∷ (at 6 ∷ (at 7 ∷ (at 900 ∷ [])))) 5 nothing refl
      (
        omega arith,
        omega arith,
        (omega arith, omega arith, (omega arith, omega arith, (omega arith, omega arith, tt))),
      )

-- Attempts on days after.
passes_locked_example :
    ((rate_limiter memory_redis config "login:1.2.3.4" 5 no_expiry nothing).0 ≡ unavailable)
    × (passes memory_redis config "login:1.2.3.4"
          (at 100000000 ∷ (at 200000000 ∷ []))
          (rate_limiter memory_redis config "login:1.2.3.4" 5 no_expiry nothing).1
        < 2)
passes_locked_example =
    passes_locked memory_redis config refl (omega arith) "login:1.2.3.4" no_expiry
      (at 100000000 ∷ (at 200000000 ∷ [])) 5 300000000 nothing refl refl refl (omega arith)
      (omega arith, omega arith, (omega arith, omega arith, tt))

redact_token_paths-token_example :
    (redact_token_paths ("/v1/auth/reset-password/" ++ "abc" ++ "?x=1")
      ≡ "/v1/auth/reset-password/" ++ "[REDACTED]" ++ "?x=1")
    × (redact_token_paths ("/v1/invitations/" ++ "abc" ++ "?x=1")
        ≡ "/v1/invitations/" ++ "[REDACTED]" ++ "?x=1")
unfolding is_segment begins_segment
redact_token_paths-token_example = redact_token_paths-token "abc" "?x=1" refl refl refl

abbrev ada : User
ada = record {
  id = 1;
  email = "ada@acme.test";
  password_hash = "h";
  name = "Ada";
  email_verified_at = none;
  created_at = 0;
  deleted_at = none;
}

abbrev users : Db memory_tables
users = record empty_db {
  users = record { bound = 2; row = λ k. if k == 1 then some ada else none };
}

handle_password_reset_request-Handled_example :
    Ends
      (Handled memory_tables 3 (ok tt) 9000000 1 "hash" "ada@acme.test" users)
      (handle_password_reset_request 3 (ok tt) 9000000 1 "hash" "ada@acme.test" users)
handle_password_reset_request-Handled_example =
    handle_password_reset_request-Handled memory_tables 3 (ok tt) 9000000 1 "hash" "ada@acme.test"
      users
