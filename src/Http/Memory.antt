-- ===== src/Http/Memory.antt =====
-- A Redis in memory that meets the interface, for the examples: what a key holds is one more than the number
-- that is kept for it.
use tasks_platform.Common.{
  ℕ, suc, ◌+◌, ◌≤◌, ◌<◌, ◌≡◌, refl, sym, ap, ◌∙◌, inl, inr, String, Bool, true, false, Option, none,
  some, arith, leb, str_eq, eq_iff, Bool-cases, if◌then◌else◌,
}
use tasks_platform.Http.Redis.{Redis, expired}

pub record Entry : Type 0 where
  pub below : ℕ
  pub until : Option ℕ

abbrev pub alive : ℕ → Option Entry → Option Entry
alive now none = none
alive now (some e) = if expired e.until now then none else some e

abbrev pub held : Option Entry → ℕ
held none = 0
held (some e) = suc e.below

abbrev pub expiry : Option Entry → Option ℕ
expiry none = none
expiry (some e) = e.until

abbrev pub until_at : ℕ → Option Entry → Option Entry
until_at at none = none
until_at at (some e) = some (record e { until = some at })

abbrev pub Entries : Type 0
Entries = String → Option Entry

abbrev pub more : Option Entry → Option Entry
more o = some (record { below = held o; until = expiry o })

abbrev pub put : String → Option Entry → Entries → Entries
put key o s k = if str_eq k key then o else s k

alive-more : (now : ℕ) (o : Option Entry) → alive now (more (alive now o)) ≡ more (alive now o)
alive-more now none = refl
alive-more now (some e) = elim (Bool-cases (expired e.until now)) [
  | inl gone ↦ rw gone refl
  | inr here ↦ rw (here, here) refl
]

alive-put :
    (key k : String) (now : ℕ) (o : Option Entry) (s : Entries)
    → alive now (put key o s k) ≡ (if str_eq k key then alive now o else alive now (s k))
alive-put key k now o s = elim (Bool-cases (str_eq k key)) [
  | inl same ↦ rw same refl
  | inr other ↦ rw other refl
]

pub count-incr :
    (key k : String) (now : ℕ) (s : Entries)
    → held (alive now (put key (more (alive now (s key))) s k))
      ≡ (if str_eq k key then held (alive now (s key)) + 1 else held (alive now (s k)))
count-incr key k now s = elim (Bool-cases (str_eq k key)) [
  | inl same ↦
      rw (alive-put key k now (more (alive now (s key))) s, same, alive-more now (s key))
        (omega arith)
  | inr other ↦ rw (alive-put key k now (more (alive now (s key))) s, other) refl
]

pub expiry-incr :
    (key k : String) (now : ℕ) (s : Entries)
    → expiry (alive now (put key (more (alive now (s key))) s k)) ≡ expiry (alive now (s k))
expiry-incr key k now s = elim (Bool-cases (str_eq k key)) [
  | inl same ↦
      rw (alive-put key k now (more (alive now (s key))) s, same, alive-more now (s key))
        (ap (λ j. expiry (alive now (s j))) (sym ((eq_iff k key).0 same)))
  | inr other ↦ rw (alive-put key k now (more (alive now (s key))) s, other) refl
]

pub expiry-none : (o : Option Entry) → held o ≡ 0 → expiry o ≡ none
expiry-none none e = refl
expiry-none (some x) e = absurd (omega arith)

held-until_at :
    (now ms : ℕ) (o : Option Entry)
    → 0 < ms
    → held (alive now (until_at (now + ms) (alive now o))) ≡ held (alive now o)
held-until_at now ms none lt = refl
held-until_at now ms (some e) lt = elim (Bool-cases (expired e.until now)) [
  | inl gone ↦ rw gone refl
  | inr here ↦ let fresh : leb (now + ms) now ≡ false = ground arith in rw (here, fresh) refl
]

expiry-until_at :
    (now ms : ℕ) (o : Option Entry)
    → 0 < ms
    → 0 < held (alive now o)
    → expiry (alive now (until_at (now + ms) (alive now o))) ≡ some (now + ms)
expiry-until_at now ms none lt there = absurd (omega arith)
expiry-until_at now ms (some e) lt there = elim (Bool-cases (expired e.until now)) [
  | inl gone ↦ absurd (ground arith)
  | inr here ↦ let fresh : leb (now + ms) now ≡ false = ground arith in rw (here, fresh) refl
]

pub count-pexpire :
    (key k : String) (ms now : ℕ) (s : Entries)
    → 0 < ms
    → held (alive now (put key (until_at (now + ms) (alive now (s key))) s k))
      ≡ held (alive now (s k))
count-pexpire key k ms now s lt = elim (Bool-cases (str_eq k key)) [
  | inl same ↦
      rw
        (
          alive-put key k now (until_at (now + ms) (alive now (s key))) s,
          same,
          held-until_at now ms (s key) lt,
        )
        (ap (λ j. held (alive now (s j))) (sym ((eq_iff k key).0 same)))
  | inr other ↦ rw (alive-put key k now (until_at (now + ms) (alive now (s key))) s, other) refl
]

pub expiry-pexpire :
    (key k : String) (ms now : ℕ) (s : Entries)
    → 0 < ms
    → 0 < held (alive now (s key))
    → expiry (alive now (put key (until_at (now + ms) (alive now (s key))) s k))
      ≡ (if str_eq k key then some (now + ms) else expiry (alive now (s k)))
expiry-pexpire key k ms now s lt there = elim (Bool-cases (str_eq k key)) [
  | inl same ↦
      rw (alive-put key k now (until_at (now + ms) (alive now (s key))) s, same)
        (expiry-until_at now ms (s key) lt there)
  | inr other ↦ rw (alive-put key k now (until_at (now + ms) (alive now (s key))) s, other) refl
]

expired_later :
    (u : Option ℕ) (now later : ℕ) → now ≤ later → expired u now ≡ true → expired u later ≡ true
expired_later none now later le gone = gone
expired_later (some at) now later le gone = ground arith

pub alive_later :
    (now later : ℕ) (o : Option Entry)
    → now ≤ later
    → alive later o ≡ (if expired (expiry (alive now o)) later then none else alive now o)
alive_later now later none le = refl
alive_later now later (some e) le = elim (Bool-cases (expired e.until now)) [
  | inl gone ↦ rw (gone, expired_later e.until now later le gone) refl
  | inr here ↦ rw here refl
]

pub branch :
    {A : Type 0} (f : Option Entry → A) (b : Bool) (o : Option Entry)
    → f (if b then none else o) ≡ (if b then f none else f o)
branch f true o = refl
branch f false o = refl

abbrev pub memory_redis : Redis
memory_redis = record {
  State = Entries;
  count = λ key now s. held (alive now (s key));
  expires_at = λ key now s. expiry (alive now (s key));
  incr = λ key now s. (held (alive now (s key)) + 1, put key (more (alive now (s key))) s);
  pexpire = λ key ms now s. put key (until_at (now + ms) (alive now (s key))) s;
  incr_value = λ key now s. refl;
  count-incr = count-incr;
  expires_at-incr = expiry-incr;
  expires_at_none = λ key now s. expiry-none (alive now (s key));
  count-pexpire = count-pexpire;
  expires_at-pexpire = expiry-pexpire;
  count_later = λ key now later s le.
      ap held (alive_later now later (s key) le)
      ∙ branch held (expired (expiry (alive now (s key))) later) (alive now (s key));
  expires_at_later = λ key now later s le.
      ap expiry (alive_later now later (s key) le)
      ∙ branch expiry (expired (expiry (alive now (s key))) later) (alive now (s key));
}
