-- ===== src/Database/Steps.antt =====
-- How a property of a service's outcome is shown along its steps: one rule for each kind of step.
-- `Ends Q r` says that `Q` holds of the result and the state `r` with which the service ends.
use tasks_platform.Common.{◌≡◌, refl, sym, subst, Bool, true, false, Option, none, some}
use tasks_platform.Errors.{AppError, Thrown, app}
use tasks_platform.Database.Client.{
  Tables, Db, Prisma, Result, ok, err, Action, pure, refuse, ensure, or_throw, continue,
  rolled_back, ◌>>=◌, ◌>>◌,
}

pub record Ends {t : Tables} {B : Type 0} (Q : Result B × Db t → Type 0) (r : Result B × Db t)
    : Type 0 where
  pub holds : Q r

module _ {t : Tables} {B : Type 0} {Q : Result B × Db t → Type 0} (db : Db t) where
  -- `if (b) throw e;`
  pub refuse-then :
      (b : Bool) (e : AppError) (rest : Action t B)
      → (b ≡ true → Ends Q (err (app e), db))
      → (b ≡ false → Ends Q (rest db))
      → Ends Q ((refuse b e >> rest) db)
  unfolding refuse
  refuse-then true e rest refused passed = refused refl
  refuse-then false e rest refused passed = passed refl

  -- `if (!b) throw e;`
  pub ensure-then :
      (b : Bool) (e : AppError) (rest : Action t B)
      → (b ≡ false → Ends Q (err (app e), db))
      → (b ≡ true → Ends Q (rest db))
      → Ends Q ((ensure b e >> rest) db)
  unfolding ensure
  ensure-then true e rest refused passed = passed refl
  ensure-then false e rest refused passed = refused refl

  module _ {A : Type 0} where
    -- `if (!o) throw e;`
    pub or_throw-then :
        (o : Option A) (e : AppError) (rest : A → Action t B)
        → (o ≡ none → Ends Q (err (app e), db))
        → ((a : A) → o ≡ some a → Ends Q (rest a db))
        → Ends Q ((or_throw o e >>= rest) db)
    unfolding or_throw
    or_throw-then none e rest missing found = missing refl
    or_throw-then (some a) e rest missing found = found a refl

    -- Any step: it threw, or the rest runs from its value and state.
    pub bind-then :
        (m : Action t A) (rest : A → Action t B)
        → ((e : Thrown) (after : Db t) → m db ≡ (err e, after) → Ends Q (err e, after))
        → ((a : A) (after : Db t) → m db ≡ (ok a, after) → Ends Q (rest a after))
        → Ends Q ((m >>= rest) db)
    bind-then m rest failed done = outcome (m db) refl
      where
        outcome : (r : Result A × Db t) → m db ≡ r → Ends Q (continue r rest)
        outcome (ok a, after) same = done a after same
        outcome (err e, after) same = failed e after same

    -- A step that only reads: the rest runs in the state that it began with.
    pub reads-then :
        (m : Action t A) (rest : A → Action t B)
        → (m db).1 ≡ db
        → ((e : Thrown) → m db ≡ (err e, db) → Ends Q (err e, db))
        → ((a : A) → m db ≡ (ok a, db) → Ends Q (rest a db))
        → Ends Q ((m >>= rest) db)
    reads-then m rest same failed done = outcome (m db) refl same
      where
        outcome : (r : Result A × Db t) → m db ≡ r → r.1 ≡ db → Ends Q (continue r rest)
        outcome (ok a, after) e p =
            subst (λ d. m db ≡ (ok a, d) → Ends Q (rest a d)) (sym p) (done a) e
        outcome (err x, after) e p =
            subst (λ d. m db ≡ (err x, d) → Ends Q (err x, d)) (sym p) (failed x) e

-- What holds of the state after a step still does when the step's value is replaced.
pub replaced-then :
    {t : Tables} {A B : Type 0} (P : Db t → Type 0) (db : Db t) (m : Action t A) (b : B)
    → P (m db).1
    → Ends (λ r. P r.1) ((m >> pure b) db)
replaced-then {t} {A} {B} P db m b h = outcome (m db) h
  where
    outcome : (r : Result A × Db t) → P r.1 → Ends (λ r. P r.1) (continue r (λ _. pure b))
    outcome (ok a, after) p = record { holds = p }
    outcome (err e, after) p = record { holds = p }

-- What holds of the state after a step, whatever became of it, and is kept by the rest.
pub held-then :
    {t : Tables} {A B : Type 0} (P : Db t → Type 0) (r : Result A × Db t) (rest : A → Action t B)
    → Ends (λ r. P r.1) r
    → ((a : A) (after : Db t) → P after → Ends (λ r. P r.1) (rest a after))
    → Ends (λ r. P r.1) (continue r rest)
held-then P (ok a, after) rest known done = done a after known.holds
held-then P (err e, after) rest known done = record { holds = known.holds }

-- A transaction: it threw and nothing was written, or the block's outcome.
pub transaction-then :
    (prisma : Prisma) {A : Type 0} {Q : Result A × Db prisma.tables → Type 0}
    (db : Db prisma.tables) (block : Action prisma.tables A)
    → ((e : Thrown) (after : Db prisma.tables) → block db ≡ (err e, after) → Ends Q (err e, db))
    → ((a : A) (after : Db prisma.tables) → block db ≡ (ok a, after) → Ends Q (ok a, after))
    → Ends Q (prisma.transaction A block db)
transaction-then prisma {A} {Q} db block failed done =
    subst (Ends Q) (sym (prisma.transaction_lem A block db)) (outcome (block db) refl)
  where
    outcome : (r : Result A × Db prisma.tables) → block db ≡ r → Ends Q (rolled_back db r)
    outcome (ok a, after) same = done a after same
    outcome (err e, after) same = failed e after same
