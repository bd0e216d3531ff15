-- ===== src/Security/Split.antt =====
-- `split` of JavaScript's texts on a single character, and what it makes of texts that were put together.
use Prim.Native.Char.{Char, code}
use Prim.Native.String.{◌++◌}
use text.Mathlib.TextLemmas.{nil-append, cons-append}
use tasks_platform.Common.{
  ℕ, ◌≡◌, refl, ap, ◌∙◌, String, Bool, true, false, not, ◌&&◌, List, [], ◌∷◌, ◌==◌, arith,
  if◌then◌else◌,
}

abbrev pub push : Char → List String → List String
push c [] = []
push c (word ∷ words) = String.◌∷◌ c word ∷ words

unfoldable pub split : ℕ → String → List String
split sep String.[] = "" ∷ []
split sep (String.◌∷◌ c s) = if code c == sep then "" ∷ split sep s else push c (split sep s)

-- Does a character not occur in a text?
unfoldable pub lacks : ℕ → String → Bool
lacks sep String.[] = true
lacks sep (String.◌∷◌ c s) = not (code c == sep) && lacks sep s

pub split-lacks : (sep : ℕ) (s : String) → lacks sep s ≡ true → split sep s ≡ s ∷ []
unfolding split lacks
split-lacks sep String.[] without = refl
split-lacks sep (String.◌∷◌ c s) without =
    let other : (code c == sep) ≡ false = ground arith in
    rw (other, split-lacks sep s (ground arith)) refl

pub lacks-append : (sep : ℕ) (s t : String) → lacks sep (s ++ t) ≡ (lacks sep s && lacks sep t)
unfolding lacks
lacks-append sep String.[] t = ap (lacks sep) (nil-append t)
lacks-append sep (String.◌∷◌ c s) t =
    ap (lacks sep) (cons-append c s t) ∙ ground (arith, lacks-append sep s t)

split_hit :
    (sep : ℕ) (c : Char) (rest : String)
    → (code c == sep) ≡ true
    → split sep (String.◌∷◌ c rest) ≡ "" ∷ split sep rest
unfolding split
split_hit sep c rest hit = rw hit refl

split_miss :
    (sep : ℕ) (c : Char) (rest : String)
    → (code c == sep) ≡ false
    → split sep (String.◌∷◌ c rest) ≡ push c (split sep rest)
unfolding split
split_miss sep c rest miss = rw miss refl

pub split-append :
    (sep : ℕ) (s : String) (c : Char) (rest : String)
    → lacks sep s ≡ true
    → (code c == sep) ≡ true
    → split sep (s ++ String.◌∷◌ c rest) ≡ s ∷ split sep rest
unfolding lacks
split-append sep String.[] c rest without hit =
    ap (split sep) (nil-append (String.◌∷◌ c rest)) ∙ split_hit sep c rest hit
split-append sep (String.◌∷◌ d s) c rest without hit =
    ap (split sep) (cons-append d s (String.◌∷◌ c rest))
    ∙ split_miss sep d (s ++ String.◌∷◌ c rest) (ground arith)
    ∙ ap (push d) (split-append sep s c rest (ground arith) hit)
