-- ===== src/Security/Verified.antt =====
-- A signature that was made is accepted, and what an accepted one was made of.
use Prim.Native.String.{◌++◌}
use Prim.Native.Char.{Char}
use text.Mathlib.TextLemmas.{nil-append, cons-append, append_assoc}
use tasks_platform.Common.{
  ℕ, ◌≡◌, refl, sym, ap, ◌∙◌, String, true, false, some, List, [], ◌∷◌, arith, str_eq,
  if◌then◌else◌,
}
use tasks_platform.Security.Split.{split, lacks, split-lacks, split-append, lacks-append}
use tasks_platform.Security.Signature.{
  Platform, verified, timestamp_outside_tolerance, last_value, part_of, same_bytes, compute_hmac,
  sign_webhook_payload, verify_parts, verify_both, verify_webhook_signature,
}

same_bytes_refl : (bytes : List ℕ) → same_bytes bytes bytes ≡ true
same_bytes_refl [] = refl
same_bytes_refl (b ∷ bs) = ground (arith, same_bytes_refl bs)

-- The text of a number or a digest that stands in a header.
abbrev Plain : String → Type 0
Plain s = (lacks b',' s ≡ true) × (lacks b'=' s ≡ true) × (str_eq s "" ≡ false)

begins_with : (c : Char) (s : String) → String.◌∷◌ c "" ++ s ≡ String.◌∷◌ c s
begins_with c s = cons-append c "" s ∙ ap (String.◌∷◌ c) (nil-append s)

-- `name=value`, cut at the sign.
entry_cut :
    (name value : String)
    → lacks b'=' name ≡ true
    → lacks b'=' value ≡ true
    → split b'=' (name ++ "=" ++ value) ≡ name ∷ (value ∷ [])
entry_cut name value plain plain' =
    ap (λ s. split b'=' (name ++ s)) (begins_with "=" value)
    ∙ split-append b'=' name "=" value plain refl
    ∙ ap (λ words. name ∷ words) (split-lacks b'=' value plain')

header_text :
    (timestamp signature : String)
    → "t=" ++ timestamp ++ ",v1=" ++ signature
      ≡ ("t" ++ "=" ++ timestamp) ++ String.◌∷◌ "," ("v1" ++ "=" ++ signature)
header_text timestamp signature =
    let rest = String.◌∷◌ "," ("v1" ++ "=" ++ signature) in
    let second : ",v1=" ++ signature ≡ rest =
      cons-append "," "v1=" signature ∙ ap (String.◌∷◌ ",") (append_assoc "v1" "=" signature) in
    ap (λ s. "t=" ++ timestamp ++ s) second
    ∙ append_assoc "t" "=" (timestamp ++ rest)
    ∙ ap (λ s. "t" ++ s) (sym (append_assoc "=" timestamp rest))
    ∙ sym (append_assoc "t" ("=" ++ timestamp) rest)

header_cut :
    (timestamp signature : String)
    → Plain timestamp
    → Plain signature
    → split b',' ("t=" ++ timestamp ++ ",v1=" ++ signature)
      ≡ ("t" ++ "=" ++ timestamp) ∷ (("v1" ++ "=" ++ signature) ∷ [])
unfolding lacks
header_cut timestamp signature (no_comma, _, _) (no_comma', _, _) =
    let first =
      lacks-append b',' "t" ("=" ++ timestamp) ∙ lacks-append b',' "=" timestamp ∙ no_comma in
    let second =
      lacks-append b',' "v1" ("=" ++ signature) ∙ lacks-append b',' "=" signature ∙ no_comma' in
    ap (split b',') (header_text timestamp signature)
    ∙ split-append b',' ("t" ++ "=" ++ timestamp) "," ("v1" ++ "=" ++ signature) first refl
    ∙ ap (λ words. ("t" ++ "=" ++ timestamp) ∷ words)
        (split-lacks b',' ("v1" ++ "=" ++ signature) second)

-- Both parts of a header that was made are found in it.
header_parts :
    (timestamp signature : String)
    → Plain timestamp
    → Plain signature
    → (part_of "t" ("t=" ++ timestamp ++ ",v1=" ++ signature) ≡ some timestamp)
      × (part_of "v1" ("t=" ++ timestamp ++ ",v1=" ++ signature) ≡ some signature)
unfolding part_of last_value lacks
header_parts timestamp signature plain plain' =
    let t_entry = entry_cut "t" timestamp refl plain.1 in
    let v1_entry = entry_cut "v1" signature refl plain'.1 in
    rw (header_cut timestamp signature plain plain', t_entry, v1_entry, plain.2, plain'.2)
      (refl, refl)

module _ (js : Platform) where
  -- What a signature that is accepted is made of: a timestamp that is a finite number and no farther from
  -- now than the tolerance, and a digest with the bytes of the HMAC of that timestamp and the body.
  abbrev pub Authentic : String → String → String → js.Number → js.Number → Type 0
  Authentic secret body header tolerance now =
      (raw signature : String) × (timestamp : js.Number) × (part_of "t" header ≡ some raw)
      × (part_of "v1" header ≡ some signature)
      × (js.to_number raw ≡ some timestamp)
      × (js.apart now timestamp tolerance ≡ false)
      × (js.from_hex signature ≡ js.from_hex (compute_hmac js secret timestamp body))

  module _ (to_number-print : (n : js.Number) → js.to_number (js.print n) ≡ some n)
      (print-Plain : (n : js.Number) → Plain (js.print n))
      (hmac-Plain : (secret text : String) → Plain (js.hmac secret text)) where
    -- Where a number is read back as it was printed, and no printed number or digest is empty or has a comma
    -- or an equals sign, the header that signing makes is accepted with the same secret and body as long as the
    -- timestamp is no farther from now than the tolerance, and is refused for its timestamp otherwise.
    pub verify-sign :
        (secret body : String) (timestamp tolerance now : js.Number)
        → verify_webhook_signature js secret body
            (sign_webhook_payload js secret body timestamp).header
            tolerance
            now
          ≡ (if js.apart now timestamp tolerance then timestamp_outside_tolerance else verified)
    unfolding verify_webhook_signature verify_both verify_parts sign_webhook_payload compute_hmac
    verify-sign secret body timestamp tolerance now =
        let digest = js.hmac secret (js.print timestamp ++ "." ++ body) in
        let parts =
          header_parts (js.print timestamp) digest (print-Plain timestamp)
            (hmac-Plain secret (js.print timestamp ++ "." ++ body)) in
        rw (parts.0, parts.1, to_number-print timestamp, same_bytes_refl (js.from_hex digest)) refl
