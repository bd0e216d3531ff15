-- ===== src/Http/Redis.antt =====
-- The commands of Redis that the rate limiter sends, as Redis documents them, at a time. A key that has
-- expired holds nothing, and a counter that is not there counts as zero.
use tasks_platform.Common.{
  ℕ, ◌+◌, ◌≤◌, ◌<◌, ◌≡◌, String, Bool, false, Option, none, some, leb, str_eq, if◌then◌else◌,
}

abbrev pub expired : Option ℕ → ℕ → Bool
expired none now = false
expired (some at) now = leb at now

pub record Redis : Type 1 where
  pub State : Type 0
  -- what a key holds, and when it expires
  pub count : String → ℕ → State → ℕ
  pub expires_at : String → ℕ → State → Option ℕ
  pub incr : String → ℕ → State → ℕ × State
  pub pexpire : String → ℕ → ℕ → State → State
  -- `INCR` returns the new value, and leaves the expiry of the key and every other key alone
  pub incr_value : (key : String) (now : ℕ) (s : State) → (incr key now s).0 ≡ count key now s + 1
  pub count-incr :
      (key k : String) (now : ℕ) (s : State)
      → count k now (incr key now s).1
        ≡ (if str_eq k key then count key now s + 1 else count k now s)
  pub expires_at-incr :
      (key k : String) (now : ℕ) (s : State)
      → expires_at k now (incr key now s).1 ≡ expires_at k now s
  -- a key that holds nothing does not expire
  pub expires_at_none :
      (key : String) (now : ℕ) (s : State) → count key now s ≡ 0 → expires_at key now s ≡ none
  -- `PEXPIRE` sets when a key that is there expires
  pub count-pexpire :
      (key k : String) (ms now : ℕ) (s : State)
      → 0 < ms
      → count k now (pexpire key ms now s) ≡ count k now s
  pub expires_at-pexpire :
      (key k : String) (ms now : ℕ) (s : State)
      → 0 < ms
      → 0 < count key now s
      → expires_at k now (pexpire key ms now s)
        ≡ (if str_eq k key then some (now + ms) else expires_at k now s)
  -- time passes: a key is as it was until it expires
  pub count_later :
      (key : String) (now later : ℕ) (s : State)
      → now ≤ later
      → count key later s ≡ (if expired (expires_at key now s) later then 0 else count key now s)
  pub expires_at_later :
      (key : String) (now later : ℕ) (s : State)
      → now ≤ later
      → expires_at key later s
        ≡ (if expired (expires_at key now s) later then none else expires_at key now s)
