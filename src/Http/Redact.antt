-- ===== src/Http/Redact.antt =====
-- apps/api/src/shared/http/redact-token-paths.ts. Each regular expression is a prefix and then a segment, one or
-- more characters that are none of `/`, `?` and `#`.
use Prim.Native.Char.{code}
use Prim.Native.String.{◌++◌}
use text.Mathlib.TextLemmas.{nil-append, cons-append}
use tasks_platform.Common.{
  ℕ, ◌≡◌, inl, inr, refl, ap, ◌∙◌, String, Bool, true, false, not, ◌&&◌, ◌||◌, Option, none, some,
  ◌==◌, arith, str_eq, eq_iff, if◌then◌else◌, Bool-cases,
}

-- What follows a prefix.
unfoldable pub strip_prefix : String → String → Option String
strip_prefix String.[] url = some url
strip_prefix (String.◌∷◌ c prefix) String.[] = none
strip_prefix (String.◌∷◌ c prefix) (String.◌∷◌ d url) =
    if code c == code d then strip_prefix prefix url else none

abbrev pub ends_segment : ℕ → Bool
ends_segment c = c == b'/' || c == b'?' || c == b'#'

-- Does a text begin with a segment, and what follows it?
unfoldable pub begins_segment : String → Bool
begins_segment String.[] = false
begins_segment (String.◌∷◌ c s) = not (ends_segment (code c))

unfoldable pub after_segment : String → String
after_segment String.[] = ""
after_segment (String.◌∷◌ c s) = if ends_segment (code c) then String.◌∷◌ c s else after_segment s

abbrev pub masked : String → String → String → String
masked prefix url rest =
    if begins_segment rest then prefix ++ "[REDACTED]" ++ after_segment rest else url

-- `redacted.replace(pattern, `$1${REDACTED_SEGMENT}`)`
unfoldable pub redact : String → String → String
unfolding strip_prefix begins_segment after_segment
redact prefix url = redacted (strip_prefix prefix url)
  where
    redacted : Option String → String
    redacted none = url
    redacted (some rest) = masked prefix url rest

unfoldable pub redact_token_paths : String → String
unfolding redact
redact_token_paths url = redact "/v1/invitations/" (redact "/v1/auth/reset-password/" url)

-- A segment, and a text that does not go on with one.
unfoldable pub is_segment : String → Bool
is_segment String.[] = true
is_segment (String.◌∷◌ c s) = not (ends_segment (code c)) && is_segment s

strip_prefix-append : (prefix url : String) → strip_prefix prefix (prefix ++ url) ≡ some url
unfolding strip_prefix
strip_prefix-append String.[] url = ap some (nil-append url)
strip_prefix-append (String.◌∷◌ c prefix) url =
    let same : (code c == code c) ≡ true = ground arith in
    ap (strip_prefix (String.◌∷◌ c prefix)) (cons-append c prefix url)
    ∙ ap (λ b. if b then strip_prefix prefix (prefix ++ url) else none) same
    ∙ strip_prefix-append prefix url

-- Two prefixes of which neither begins with the other.
unfoldable pub apart : String → String → Bool
apart String.[] q = false
apart (String.◌∷◌ c p) String.[] = false
apart (String.◌∷◌ c p) (String.◌∷◌ d q) = not (code c == code d) || apart p q

strip_prefix-apart : (p q url : String) → apart p q ≡ true → strip_prefix p (q ++ url) ≡ none
unfolding strip_prefix apart
strip_prefix-apart String.[] q url different = absurd (ground arith)
strip_prefix-apart (String.◌∷◌ c p) String.[] url different = absurd (ground arith)
strip_prefix-apart (String.◌∷◌ c p) (String.◌∷◌ d q) url different =
    ap (strip_prefix (String.◌∷◌ c p)) (cons-append d q url)
    ∙ elim (Bool-cases (code c == code d)) [
      | inl same ↦ rw same (strip_prefix-apart p q url (ground arith))
      | inr other ↦ rw other refl
    ]

after_segment-append :
    (token rest : String)
    → is_segment token ≡ true
    → begins_segment rest ≡ false
    → after_segment (token ++ rest) ≡ rest
unfolding after_segment is_segment begins_segment
after_segment-append String.[] String.[] segment ended = refl
after_segment-append String.[] (String.◌∷◌ c rest) segment ended =
    let stop : ends_segment (code c) ≡ true = ground arith in
    ap after_segment (nil-append (String.◌∷◌ c rest))
    ∙ ap (λ b. if b then String.◌∷◌ c rest else after_segment rest) stop
after_segment-append (String.◌∷◌ c token) rest segment ended =
    let within : ends_segment (code c) ≡ false = ground arith in
    ap after_segment (cons-append c token rest)
    ∙ ap (λ b. if b then String.◌∷◌ c (token ++ rest) else after_segment (token ++ rest)) within
    ∙ after_segment-append token rest (ground arith) ended

begins_segment-append :
    (token rest : String)
    → str_eq token "" ≡ false
    → is_segment token ≡ true
    → begins_segment (token ++ rest) ≡ true
unfolding is_segment begins_segment
begins_segment-append String.[] rest filled segment = absurd (ground (arith, (eq_iff "" "").1 refl))
begins_segment-append (String.◌∷◌ c token) rest filled segment =
    ap begins_segment (cons-append c token rest) ∙ ground arith

redact-token :
    (prefix token rest : String)
    → str_eq token "" ≡ false
    → is_segment token ≡ true
    → begins_segment rest ≡ false
    → redact prefix (prefix ++ token ++ rest) ≡ prefix ++ "[REDACTED]" ++ rest
unfolding redact
redact-token prefix token rest filled segment ended =
    rw
      (
        strip_prefix-append prefix (token ++ rest),
        begins_segment-append token rest filled segment,
        after_segment-append token rest segment ended,
      )
      refl

redact_apart :
    (prefix other url : String)
    → apart prefix other ≡ true
    → redact prefix (other ++ url) ≡ other ++ url
unfolding redact
redact_apart prefix other url different = rw (strip_prefix-apart prefix other url different) refl

-- In the path of a password reset and in that of an invitation the segment of the token is replaced by a fixed
-- text, whatever the token is, and nothing else is changed.
pub redact_token_paths-token :
    (token rest : String)
    → str_eq token "" ≡ false
    → is_segment token ≡ true
    → begins_segment rest ≡ false
    → (redact_token_paths ("/v1/auth/reset-password/" ++ token ++ rest)
        ≡ "/v1/auth/reset-password/" ++ "[REDACTED]" ++ rest)
      × (redact_token_paths ("/v1/invitations/" ++ token ++ rest)
          ≡ "/v1/invitations/" ++ "[REDACTED]" ++ rest)
unfolding redact_token_paths apart
redact_token_paths-token token rest filled segment ended = (
  ap (redact "/v1/invitations/")
        (redact-token "/v1/auth/reset-password/" token rest filled segment ended)
      ∙ redact_apart "/v1/invitations/" "/v1/auth/reset-password/" ("[REDACTED]" ++ rest) refl,
  ap (redact "/v1/invitations/")
        (redact_apart "/v1/auth/reset-password/" "/v1/invitations/" (token ++ rest) refl)
      ∙ redact-token "/v1/invitations/" token rest filled segment ended,
)
