-- ===== src/Common/Sets.antt =====
-- Lists of numbers as sets, as `[...new Set(ids)]` makes one of a list of ids.
use tasks_platform.Common.{
  ℕ, suc, ◌+◌, ◌≤◌, ◌≡◌, inl, inr, refl, sym, ap, Bool, true, false, not, ◌&&◌, ◌||◌, List, [], ◌∷◌,
  ◌==◌, arith, Among, DistinctKeys, length, Bool-cases, ℕ-cases, ==_iff, if◌then◌else◌,
}

-- Is a number in a list?
unfoldable pub listed : ℕ → List ℕ → Bool
listed n [] = false
listed n (m ∷ ms) = m == n || listed n ms

unfoldable pub is_set : List ℕ → Bool
is_set [] = true
is_set (n ∷ ns) = not (listed n ns) && is_set ns

unfoldable pub without : ℕ → List ℕ → List ℕ
without n [] = []
without n (m ∷ ms) = if m == n then without n ms else m ∷ without n ms

-- `[...new Set(ids)]`
unfoldable pub unique : List ℕ → List ℕ
unique [] = []
unique (n ∷ ns) = n ∷ without n (unique ns)

listed-without : (l n : ℕ) (ms : List ℕ) → listed l (without n ms) ≡ (listed l ms && not (l == n))
unfolding listed without
listed-without l n [] = refl
listed-without l n (m ∷ ms) = elim (Bool-cases (m == n)) [
  | inl same ↦ rw same (ground (arith, listed-without l n ms))
  | inr other ↦ rw other (ground (arith, listed-without l n ms))
]

is_set-without : (n : ℕ) (ms : List ℕ) → is_set ms ≡ true → is_set (without n ms) ≡ true
unfolding is_set without
is_set-without n [] distinct = refl
is_set-without n (m ∷ ms) distinct =
    let rest = is_set-without n ms (ground arith) in
    elim (Bool-cases (m == n)) [
      | inl same ↦ rw same rest
      | inr other ↦ rw other (ground (arith, listed-without m n ms))
    ]

pub listed-unique : (l : ℕ) (ns : List ℕ) → listed l (unique ns) ≡ listed l ns
unfolding listed unique
listed-unique l [] = refl
listed-unique l (n ∷ ns) = ground (arith, listed-without l n (unique ns), listed-unique l ns)

pub is_set-unique : (ns : List ℕ) → is_set (unique ns) ≡ true
unfolding is_set unique
is_set-unique [] = refl
is_set-unique (n ∷ ns) =
    ground (arith, listed-without n n (unique ns), is_set-without n (unique ns) (is_set-unique ns))

without_none : (n : ℕ) (ms : List ℕ) → listed n ms ≡ false → length (without n ms) ≡ length ms
unfolding listed without
without_none n [] absent = refl
without_none n (m ∷ ms) absent =
    let other : (m == n) ≡ false = ground arith in
    rw other (ap suc (without_none n ms (ground arith)))

length-without :
    (n : ℕ) (ms : List ℕ)
    → listed n ms ≡ true
    → is_set ms ≡ true
    → length ms ≡ length (without n ms) + 1
unfolding listed is_set without
length-without n [] there distinct = absurd (ground arith)
length-without n (m ∷ ms) there distinct = elim (Bool-cases (m == n)) [
  | inl same ↦
      let absent : listed n ms ≡ false =
        ground (arith, ap (λ i. listed i ms) ((==_iff m n).0 same)) in
      rw same (omega (arith, without_none n ms absent))
  | inr other ↦ rw other (omega (arith, length-without n ms (ground arith) (ground arith)))
]

-- Rows with keys of their own, all of them in a set that is no larger: every number of the set is a key.
pub keys_all :
    {A : Type 0} (key : A → ℕ) (xs : List A) (ids : List ℕ)
    → DistinctKeys key xs
    → ((x : A) → Among x xs → listed (key x) ids ≡ true)
    → is_set ids ≡ true
    → length ids ≤ length xs
    → (id : ℕ) → listed id ids ≡ true
    → (x : A) × Among x xs × (key x ≡ id)
unfolding listed
keys_all key [] [] distinct within set le id there = absurd (ground arith)
keys_all key [] (n ∷ ns) distinct within set le id there = absurd (omega arith)
keys_all key (x ∷ xs) ids distinct within set le id there = elim (ℕ-cases id (key x)) [
  | inl same ↦ (x, inl refl, sym same)
  | inr other ↦
      let (y, later, e) =
        keys_all key xs (without (key x) ids) distinct.1
          (λ y later.
            ground
              (arith, listed-without (key y) (key x) ids, within y (inr later), distinct.0 y later))
          (is_set-without (key x) ids set)
          (omega (arith, length-without (key x) ids (within x (inl refl)) set)) id
          (ground (arith, listed-without id (key x) ids)) in
      (y, inr later, e)
]
