-- ===== src/Security/Signature.antt =====
-- packages/shared/src/security/webhook-signature.ts. The HMAC and the decoding of hexadecimal digits, of
-- Node, and the numbers of JavaScript, which are double floats, are parameters.
use Prim.Native.String.{◌++◌}
use tasks_platform.Common.{
  ℕ, String, Bool, true, false, ◌&&◌, Option, none, some, List, [], ◌∷◌, ◌==◌, str_eq,
  if◌then◌else◌,
}
use tasks_platform.Security.Split.{split}

pub record Platform : Type 1 where
  pub Number : Type 0
  -- `Number(text)`: none if it is not finite
  pub to_number : String → Option Number
  -- a number in a template
  pub print : Number → String
  -- `Math.abs(a - b) > c`
  pub apart : Number → Number → Number → Bool
  -- `createHmac('sha256', secret).update(text).digest('hex')`
  pub hmac : String → String → String
  -- `Buffer.from(text, 'hex')`
  pub from_hex : String → List ℕ

pub data WebhookSignatureVerification : Type 0 where
  verified malformed_header signature_mismatch timestamp_outside_tolerance :
      WebhookSignatureVerification

-- `const [key, value] = part.split('=')`
abbrev pub entry_of : List String → String × Option String
entry_of [] = ("", none)
entry_of (key ∷ []) = (key, none)
entry_of (key ∷ (value ∷ rest)) = (key, some value)

-- `parts.get(name)`, of a map in which a later entry replaces an earlier one with its key; `value` is what the
-- entries before the list give.
unfoldable pub last_value : String → List String → Option String → Option String
last_value name [] value = value
last_value name (part ∷ parts) value =
    last_value name parts
      (if str_eq (entry_of (split b'=' part)).0 name then (entry_of (split b'=' part)).1 else value)

-- A value that is neither undefined nor empty.
abbrev pub filled : Option String → Option String
filled none = none
filled (some text) = if str_eq text "" then none else some text

unfoldable pub part_of : String → String → Option String
part_of name header = filled (last_value name (split b',' header) none)

-- `expectedBuffer.length !== actualBuffer.length || !timingSafeEqual(…)`, negated
abbrev pub same_bytes : List ℕ → List ℕ → Bool
same_bytes [] [] = true
same_bytes [] (b ∷ bs) = false
same_bytes (a ∷ others) [] = false
same_bytes (a ∷ others) (b ∷ bs) = a == b && same_bytes others bs

module _ (js : Platform) where
  pub record WebhookSignature : Type 0 where
    pub timestamp : js.Number
    pub signature : String
    pub header : String

  unfoldable pub compute_hmac : String → js.Number → String → String
  compute_hmac secret timestamp body = js.hmac secret (js.print timestamp ++ "." ++ body)

  unfoldable pub sign_webhook_payload : String → String → js.Number → WebhookSignature
  unfolding compute_hmac
  sign_webhook_payload secret body timestamp =
      let signature = compute_hmac secret timestamp body in
      record {
        timestamp = timestamp;
        signature = signature;
        header = "t=" ++ js.print timestamp ++ ",v1=" ++ signature;
      }

  -- The tests on a timestamp and a signature that are there.
  unfoldable pub verify_parts :
      String
      → String
      → js.Number
      → js.Number
      → Option js.Number
      → String
      → WebhookSignatureVerification
  unfolding compute_hmac
  verify_parts secret body tolerance now none signature = malformed_header
  verify_parts secret body tolerance now (some timestamp) signature =
      if js.apart now timestamp tolerance
      then timestamp_outside_tolerance
      else if same_bytes (js.from_hex (compute_hmac secret timestamp body)) (js.from_hex signature)
      then verified
      else signature_mismatch

  unfoldable pub verify_both :
      String
      → String
      → js.Number
      → js.Number
      → Option String
      → Option String
      → WebhookSignatureVerification
  unfolding verify_parts
  verify_both secret body tolerance now none signature = malformed_header
  verify_both secret body tolerance now (some timestamp_raw) none = malformed_header
  verify_both secret body tolerance now (some timestamp_raw) (some signature) =
      verify_parts secret body tolerance now (js.to_number timestamp_raw) signature

  unfoldable pub verify_webhook_signature :
      String → String → String → js.Number → js.Number → WebhookSignatureVerification
  unfolding part_of verify_both
  verify_webhook_signature secret body header tolerance now =
      verify_both secret body tolerance now (part_of "t" header) (part_of "v1" header)
