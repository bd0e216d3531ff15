-- ===== src/Database/Outcomes.antt =====
-- Steps whose outcome is told by whether they threw: what they leave when they did not, and that nothing
-- was written when they did.
use tasks_platform.Common.{◌≡◌, refl, sym, subst, Bool, true, false, Option, none, some}
use tasks_platform.Errors.{AppError, Thrown, app}
use tasks_platform.Database.Client.{
  Tables, Db, Prisma, Result, ok, err, Action, pure, refuse, ensure, or_throw, stored, changed,
  continue, rolled_back, prisma_error,
}
use tasks_platform.Database.Steps.{Ends}

-- What holds of the value and the state if nothing was thrown.
abbrev pub OnOk : {t : Tables} {A : Type 0} → (A → Db t → Type 0) → Result A × Db t → Type 0
OnOk P (ok a, after) = P a after
OnOk P (err e, after) = Unit {0}

-- The same, and that nothing was written if something was thrown.
abbrev pub Atomic :
    {t : Tables} {A : Type 0} → Db t → (A → Db t → Type 0) → Result A × Db t → Type 0
Atomic db P (ok a, after) = P a after
Atomic db P (err e, after) = after ≡ db

pub refused :
    {t : Tables} {A : Type 0} {P : A → Db t → Type 0} {db : Db t} {e : Thrown}
    → Ends (Atomic db P) (err e, db)
refused = record { holds = refl }

pub atomically :
    (prisma : Prisma) {A : Type 0} {P : A → Db prisma.tables → Type 0} (db : Db prisma.tables)
    (block : Action prisma.tables A)
    → Ends (OnOk P) (block db)
    → Ends (Atomic db P) (prisma.transaction A block db)
atomically prisma {A} {P} db block done =
    subst (Ends (Atomic db P)) (sym (prisma.transaction_lem A block db)) (outcome (block db) done)
  where
    outcome :
        (r : Result A × Db prisma.tables) → Ends (OnOk P) r → Ends (Atomic db P) (rolled_back db r)
    outcome (ok a, after) h = record { holds = h.holds }
    outcome (err e, after) h = record { holds = refl }

module _ {t : Tables} {A : Type 0} {Q : Result A × Db t → Type 0} {R : Type 0} (db : Db t) where
  pub stored_last :
      (o : Option R) (put : R → Db t) (a : A)
      → (o ≡ none → Ends Q (err prisma_error, db))
      → ((rows : R) → o ≡ some rows → Ends Q (ok a, put rows))
      → Ends Q (stored o put a db)
  unfolding stored
  stored_last none put a failed done = failed refl
  stored_last (some rows) put a failed done = done rows refl

  pub changed_last :
      (o : Option (A × R)) (put : R → Db t)
      → (o ≡ none → Ends Q (err prisma_error, db))
      → ((a : A) (rows : R) → o ≡ some (a, rows) → Ends Q (ok a, put rows))
      → Ends Q (changed o put db)
  unfolding changed
  changed_last none put failed done = failed refl
  changed_last (some (a, rows)) put failed done = done a rows refl

module _ {t : Tables} {A B : Type 0} {Q : Result B × Db t → Type 0} {R : Type 0} (db : Db t) where
  pub stored-then :
      (o : Option R) (put : R → Db t) (a : A) (rest : A → Action t B)
      → (o ≡ none → Ends Q (err prisma_error, db))
      → ((rows : R) → o ≡ some rows → Ends Q (rest a (put rows)))
      → Ends Q (continue (stored o put a db) rest)
  unfolding stored
  stored-then none put a rest failed done = failed refl
  stored-then (some rows) put a rest failed done = done rows refl

  pub changed-then :
      (o : Option (A × R)) (put : R → Db t) (rest : A → Action t B)
      → (o ≡ none → Ends Q (err prisma_error, db))
      → ((a : A) (rows : R) → o ≡ some (a, rows) → Ends Q (rest a (put rows)))
      → Ends Q (continue (changed o put db) rest)
  unfolding changed
  changed-then none put rest failed done = failed refl
  changed-then (some (a, rows)) put rest failed done = done a rows refl

-- What is known of a step carries over to the rest.
pub ok-then :
    {t : Tables} {A B : Type 0} {P : A → Db t → Type 0} {Q : B → Db t → Type 0}
    (r : Result A × Db t) (rest : A → Action t B)
    → Ends (OnOk P) r
    → ((a : A) (after : Db t) → P a after → Ends (OnOk Q) (rest a after))
    → Ends (OnOk Q) (continue r rest)
ok-then (ok a, after) rest known done = done a after known.holds
ok-then (err e, after) rest known done = record { holds = tt }

pub ok-weaken :
    {t : Tables} {A : Type 0} {P Q : A → Db t → Type 0} (r : Result A × Db t)
    → Ends (OnOk P) r
    → ((a : A) (after : Db t) → P a after → Q a after)
    → Ends (OnOk Q) r
ok-weaken (ok a, after) known weaker = record { holds = weaker a after known.holds }
ok-weaken (err e, after) known weaker = record { holds = tt }

pub weaken_outcome :
    {t : Tables} {A : Type 0} {P Q : A → Db t → Type 0} {db : Db t} (r : Result A × Db t)
    → Ends (Atomic db P) r
    → ((a : A) (after : Db t) → P a after → Q a after)
    → Ends (Atomic db Q) r
weaken_outcome (ok a, after) known weaker = record { holds = weaker a after known.holds }
weaken_outcome (err e, after) known weaker = record { holds = known.holds }

-- What an atomic step that went through has done.
pub atomic-ok :
    {t : Tables} {A : Type 0} {P : A → Db t → Type 0} {db : Db t} {r : Result A × Db t} {a : A}
    {after : Db t}
    → Ends (Atomic db P) r
    → r ≡ (ok a, after)
    → P a after
atomic-ok {P} {db} known e = subst (Atomic db P) e known.holds

-- A step that writes nothing, and what its value tells.
abbrev pub Reads : {t : Tables} {A : Type 0} → Db t → (A → Type 0) → Result A × Db t → Type 0
Reads db P = Atomic db (λ a after. (after ≡ db) × P a)

-- Whatever holds of a throw in the state at the start holds of a sequence that begins with such a step.
pub known-then :
    {t : Tables} {A B : Type 0} {P : A → Type 0} {Q : Result B × Db t → Type 0} {db : Db t}
    (r : Result A × Db t) (rest : A → Action t B)
    → Ends (Reads db P) r
    → ((e : Thrown) → Ends Q (err e, db))
    → ((a : A) → P a → Ends Q (rest a db))
    → Ends Q (continue r rest)
known-then {Q} {db} (ok a, after) rest known failed done =
    subst (λ d. Ends Q (rest a d)) (sym known.holds.0) (done a known.holds.1)
known-then {Q} (err e, after) rest known failed done =
    subst (λ d. Ends Q (err e, d)) (sym known.holds) (failed e)

-- The same tests at the end of a sequence.
module _ {t : Tables} {Q : Result (Unit {0}) × Db t → Type 0} (db : Db t) where
  pub refuse_last :
      (b : Bool) (e : AppError)
      → (b ≡ true → Ends Q (err (app e), db))
      → (b ≡ false → Ends Q (ok tt, db))
      → Ends Q (refuse b e db)
  unfolding refuse
  refuse_last true e thrown passed = thrown refl
  refuse_last false e thrown passed = passed refl

  pub ensure_last :
      (b : Bool) (e : AppError)
      → (b ≡ false → Ends Q (err (app e), db))
      → (b ≡ true → Ends Q (ok tt, db))
      → Ends Q (ensure b e db)
  unfolding ensure
  ensure_last true e thrown passed = passed refl
  ensure_last false e thrown passed = thrown refl

pub writes_nothing :
    {t : Tables} {A : Type 0} {db : Db t} (r : Result A × Db t)
    → r.1 ≡ db
    → Ends (Reads db (λ _. Unit {0})) r
writes_nothing (ok a, after) same = record { holds = (same, tt) }
writes_nothing (err e, after) same = record { holds = same }

-- What a state keeps through an atomic step, or through the steps that follow it.
pub keep_through :
    {t : Tables} {A : Type 0} {P : A → Db t → Type 0} {db : Db t} (S : Db t → Type 0)
    (r : Result A × Db t)
    → Ends (Atomic db P) r
    → S db
    → ((a : A) (after : Db t) → P a after → S after)
    → Ends (λ r. S r.1) r
keep_through S (ok a, after) known start step = record { holds = step a after known.holds }
keep_through S (err e, after) known start step = record { holds = subst S (sym known.holds) start }

pub keeps-unit :
    {t : Tables} {A : Type 0} (S : Db t → Type 0) (r : Result A × Db t)
    → Ends (λ r. S r.1) r
    → Ends (λ r. S r.1) (continue r (λ _. pure tt))
keeps-unit S (ok a, after) known = record { holds = known.holds }
keeps-unit S (err e, after) known = record { holds = known.holds }

pub or_throw-Reads :
    {t : Tables} {A : Type 0} (db : Db t) (o : Option A) (e : AppError)
    → Ends (Reads db (λ a. o ≡ some a)) (or_throw o e db)
unfolding or_throw
or_throw-Reads db none e = record { holds = refl }
or_throw-Reads db (some a) e = record { holds = (refl, refl) }

pub reading_tells :
    {t : Tables} {A : Type 0} {P : A → Type 0} {db : Db t} (r : Result A × Db t)
    → r.1 ≡ db
    → ((a : A) (after : Db t) → r ≡ (ok a, after) → P a)
    → Ends (Reads db P) r
reading_tells (ok a, after) same tells = record { holds = (same, tells a after refl) }
reading_tells (err e, after) same tells = record { holds = same }

-- What holds of the value and the state of a step that does not throw.
abbrev pub Succeeds : {t : Tables} {A : Type 0} → (A → Db t → Type 0) → Result A × Db t → Type 0
Succeeds P (ok a, after) = P a after
Succeeds P (err e, after) = ⊥

pub success_then :
    {t : Tables} {A B : Type 0} {P : A → Db t → Type 0} {Q : B → Db t → Type 0}
    (r : Result A × Db t) (rest : A → Action t B)
    → Ends (Succeeds P) r
    → ((a : A) (after : Db t) → P a after → Ends (Succeeds Q) (rest a after))
    → Ends (Succeeds Q) (continue r rest)
success_then (ok a, after) rest known done = done a after known.holds
success_then (err e, after) rest known done = absurd known.holds

pub success_committed :
    (prisma : Prisma) {A : Type 0} {P : A → Db prisma.tables → Type 0} (db : Db prisma.tables)
    (block : Action prisma.tables A)
    → Ends (Succeeds P) (block db)
    → Ends (Succeeds P) (prisma.transaction A block db)
success_committed prisma {A} {P} db block done =
    subst (Ends (Succeeds P)) (sym (prisma.transaction_lem A block db)) (outcome (block db) done)
  where
    outcome :
        (r : Result A × Db prisma.tables)
        → Ends (Succeeds P) r
        → Ends (Succeeds P) (rolled_back db r)
    outcome (ok a, after) h = h
    outcome (err e, after) h = absurd h.holds

pub forget_error :
    {t : Tables} {A : Type 0} {P Q : A → Db t → Type 0} {db : Db t} (r : Result A × Db t)
    → Ends (Atomic db P) r
    → ((a : A) (after : Db t) → P a after → Q a after)
    → Ends (OnOk Q) r
forget_error (ok a, after) known weaker = record { holds = weaker a after known.holds }
forget_error (err e, after) known weaker = record { holds = tt }
