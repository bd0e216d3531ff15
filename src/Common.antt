-- ===== src/Common.antt =====
-- The names that the other modules share: the libraries', passed on, Boolean tests on native
-- numbers and texts, and the few list functions that the source takes from its language.
pub mod Ordered
pub mod Collect
pub mod Sets
pub use Prim.Native.Nat.{ℕ, zero, suc, ◌+◌, ◌-◌, ◌*◌, ◌/◌, ◌%◌, ◌^◌, ◌≤◌, ◌<◌}
pub use Prim.Native.String.{String}
pub use mathlib.Core.Path.{◌≡◌, refl, sym, ap, ◌∙◌, subst}
pub use mathlib.Core.Logic.{◌≢◌, ◌↔◌, ◌⊎◌, inl, inr}
pub use mathlib.Core.Bool.{Bool, true, false, not, ◌&&◌, ◌||◌}
pub use mathlib.Core.Option.{Option, none, some}
pub use mathlib.Core.List.{List, [], ◌∷◌, ◌++◌, map}
pub use native.Mathlib.Omega.{arith}
pub use text.Mathlib.Text.{◌==◌ as str_eq}
pub use text.Mathlib.TextEquality.{eq_iff}
use Prim.Native.Nat.{compare, Ordering}
use native.Mathlib.Decide.{ℕ_discrete}

abbrev pub ltb : ℕ → ℕ → Bool
ltb a b = elim (compare a b) [ Ordering.lt ↦ true | _ ↦ false ]

abbrev pub leb : ℕ → ℕ → Bool
leb a b = elim (compare a b) [ Ordering.gt ↦ false | _ ↦ true ]

infix 50 ◌==◌
abbrev pub ◌==◌ : ℕ → ℕ → Bool
a == b = elim (compare a b) [ Ordering.eq ↦ true | _ ↦ false ]

infix 1 if◌then◌else◌
abbrev pub if◌then◌else◌ {ℓ} : {A : Type ℓ} → Bool → A → A → A
if true then x else y = x
if false then x else y = y

pub ==_iff : (a b : ℕ) → ((a == b) ≡ true) ↔ (a ≡ b)
==_iff a b = ground arith

pub ==_refl : (a : ℕ) → (a == a) ≡ true
==_refl a = ground arith

pub Bool-cases : (b : Bool) → (b ≡ true) ⊎ (b ≡ false)
Bool-cases true = inl refl
Bool-cases false = inr refl

pub ℕ-cases : (a b : ℕ) → (a ≡ b) ⊎ (a ≢ b)
ℕ-cases a b = elim (ℕ_discrete a b) [ yes h ↦ inl h | no h ↦ inr h ]

module _ {ℓ} {A : Type ℓ} where
  pub Option-cases : (o : Option A) → (o ≡ none) ⊎ ((a : A) × (o ≡ some a))
  Option-cases none = inl refl
  Option-cases (some a) = inr (a, refl)

  -- `x !== null`, and `if (x)` at a value that is an object, a date or a non-empty text.
  abbrev pub is_some : Option A → Bool
  is_some none = false
  is_some (some a) = true

  pub is_some-false : (o : Option A) → is_some o ≡ false → o ≡ none
  is_some-false none h = refl
  is_some-false (some a) h = absurd (cc)

  -- `x ?? d`: the value of an optional property, or what stands there already.
  abbrev pub or_keep : Option A → A → A
  or_keep none d = d
  or_keep (some a) d = a

  abbrev pub length : List A → ℕ
  length [] = 0
  length (x ∷ xs) = suc (length xs)

  abbrev pub take : ℕ → List A → List A
  take zero xs = []
  take (suc n) [] = []
  take (suc n) (x ∷ xs) = x ∷ take n xs

  abbrev pub get_elem? : List A → ℕ → Option A
  get_elem? [] i = none
  get_elem? (x ∷ xs) zero = some x
  get_elem? (x ∷ xs) (suc i) = get_elem? xs i

  abbrev pub all : (A → Bool) → List A → Bool
  all p [] = true
  all p (x ∷ xs) = p x && all p xs

module _ {ℓ} {A : Type ℓ} where
  -- A test that holds of a whole list holds of each of its elements.
  pub all-get_elem? :
      (p : A → Bool) (xs : List A) (i : ℕ) {x : A}
      → all p xs ≡ true
      → get_elem? xs i ≡ some x
      → p x ≡ true
  all-get_elem? p [] i h e = cc
  all-get_elem? p (y ∷ ys) zero h e = ground arith
  all-get_elem? p (y ∷ ys) (suc i) h e = all-get_elem? p ys i (ground arith) e

module _ {A : Type 0} where
  -- The elements of a list.
  abbrev pub Among : A → List A → Type 0
  Among x [] = ⊥
  Among x (y ∷ ys) = (x ≡ y) ⊎ Among x ys

  -- No two elements have the same key.
  abbrev pub DistinctKeys : (A → ℕ) → List A → Type 0
  DistinctKeys key [] = Unit {0}
  DistinctKeys key (x ∷ xs) = ((y : A) → Among y xs → key y ≢ key x) × DistinctKeys key xs

  unfoldable pub filter : (A → Bool) → List A → List A
  filter p [] = []
  filter p (x ∷ xs) = if p x then x ∷ filter p xs else filter p xs

  abbrev pub is_empty : List A → Bool
  is_empty [] = true
  is_empty (x ∷ xs) = false

  -- If nothing fails a test, every element passes it.
  pub filter_none :
      (p : A → Bool) (xs : List A) (x : A)
      → is_empty (filter (λ y. not (p y)) xs) ≡ true
      → Among x xs
      → p x ≡ true
  unfolding filter
  filter_none p [] x h here = absurd here
  filter_none p (y ∷ ys) x h (inl same) = elim (Bool-cases (p y)) [
    | inl holds ↦ ap p same ∙ holds
    | inr fails ↦ absurd (ground arith)
  ]
  filter_none p (y ∷ ys) x h (inr later) = elim (Bool-cases (p y)) [
    | inl holds ↦ filter_none p ys x (ground arith) later
    | inr fails ↦ absurd (ground arith)
  ]

module _ {ℓ κ} {A : Type ℓ} {B : Type κ} where
  abbrev pub map_option : (A → B) → Option A → Option B
  map_option f none = none
  map_option f (some a) = some (f a)

-- `a === b` on nullable identifiers, one side being a plain one.
abbrev pub is_id : Option ℕ → ℕ → Bool
is_id none b = false
is_id (some a) b = a == b
