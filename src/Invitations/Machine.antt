-- ===== src/Invitations/Machine.antt =====
-- The life of an invitation as a state machine, and what it says of the rows of the table.
use tasks_platform.Common.{
  ℕ, ◌⊎◌, ◌==◌, ◌≡◌, ◌≢◌, refl, sym, subst, inl, inr, ℕ-cases, true, false, Option, none, some, ltb,
  arith,
}
use tasks_platform.Authorization.Permissions.{owner}
use tasks_platform.Database.Table.{Keeps, get-updated, created-new}
use tasks_platform.Database.Schema.{Invitation, Invitation_clashes, is_pending}
use tasks_platform.Database.Client.{Tables, Db, Result}
use tasks_platform.Database.Steps.{Ends}
use tasks_platform.Invitations.Repository.{accepted, revoked}

-- One change of the row that a key names. A row that is not pending has none.
pub data Step : Option Invitation → Option Invitation → Type 0 where
  issuing : (r : Invitation) → is_pending r ≡ true → r.role ≢ owner → Step none (some r)
  accepting :
      (r : Invitation) (now : ℕ)
      → is_pending r ≡ true
      → ltb r.expires_at now ≡ false
      → r.role ≢ owner
      → Step (some r) (some (accepted now r))
  revoking : (r : Invitation) (now : ℕ) → is_pending r ≡ true → Step (some r) (some (revoked now r))

pub data Reach (o : Option Invitation) : Option Invitation → Type 0 where
  here : Reach o o
  next : {p q : Option Invitation} → Reach o p → Step p q → Reach o q

-- What is settled, in whichever way, stays as it is.
pub Reach-settled :
    {o p : Option Invitation} (r : Invitation)
    → is_pending r ≡ false
    → o ≡ some r
    → Reach o p
    → p ≡ some r
Reach-settled r settled e here = e
Reach-settled r settled e (next before (issuing x h n)) =
    absurd (cc (Reach-settled r settled e before))
Reach-settled r settled e (next before (accepting x now h v n)) =
    absurd (ground (arith, Reach-settled r settled e before))
Reach-settled r settled e (next before (revoking x now h)) =
    absurd (ground (arith, Reach-settled r settled e before))

pub Reach-trans : {o p q : Option Invitation} → Reach o p → Reach p q → Reach o q
Reach-trans before here = before
Reach-trans before (next after step) = next (Reach-trans before after) step

module _ (t : Tables) where
  -- Every key's row has changed along the state machine.
  abbrev pub Moves : Db t → Db t → Type 0
  Moves before after =
      (k : ℕ) → Reach (t.invitation.get k before.invitations) (t.invitation.get k after.invitations)

  pub Moves-extend :
      (db d e : Db t)
      → Moves db d
      → ((k : ℕ)
          → (t.invitation.get k e.invitations ≡ t.invitation.get k d.invitations)
            ⊎ Step (t.invitation.get k d.invitations) (t.invitation.get k e.invitations))
      → Moves db e
  Moves-extend db d e before step k = elim (step k) [
    | inl same ↦ subst (Reach (t.invitation.get k db.invitations)) (sym same) (before k)
    | inr move ↦ next (before k) move
  ]

  pub revoked-Keeps : (now : ℕ) → Keeps t.invitation (revoked now)
  revoked-Keeps now = (λ r. refl, revoked-clash)
    where
      revoked-clash :
          (r x : Invitation)
          → Invitation_clashes (revoked now r) x ≡ true
          → Invitation_clashes r x ≡ true
      revoked-clash r x h = ground arith

  -- A pending row that one of the two updates changed.
  pub updated-Moves :
      (f : Invitation → Invitation) (db d : Db t) (r : Invitation) (rows : t.invitation.Rows)
      → Keeps t.invitation f
      → Moves db d
      → t.invitation.get r.id d.invitations ≡ some r
      → Step (some r) (some (f r))
      → rows ≡ t.invitation.update_many (λ x. x.id == r.id) f d.invitations
      → Moves db (record d { invitations = rows })
  updated-Moves f db d r rows keeps before there step same =
      Moves-extend db d (record d { invitations = rows }) before
        λ k. elim (ℕ-cases k r.id) [
          | inl here' ↦ inr (
              subst (λ j. Step (t.invitation.get j d.invitations) (t.invitation.get j rows))
                (sym here')
                (stepped r.id (
                  rw same
                    (ground (arith, get-updated t.invitation r.id r.id f d.invitations keeps)))))
          | inr other ↦
              inl (rw same (ground (arith, get-updated t.invitation r.id k f d.invitations keeps)))
        ]
    where
      stepped :
          (j : ℕ)
          → t.invitation.get r.id rows ≡ some (f r)
          → Step (t.invitation.get r.id d.invitations) (t.invitation.get r.id rows)
      stepped j now_there =
          subst (λ o. Step o (t.invitation.get r.id rows)) (sym there)
            (subst (λ o. Step (some r) o) (sym now_there) step)

  pub created-Moves :
      (db d : Db t) (r : Invitation) (rows : t.invitation.Rows)
      → Moves db d
      → is_pending r ≡ true
      → r.role ≢ owner
      → t.invitation.create r d.invitations ≡ some rows
      → Moves db (record d { invitations = rows })
  created-Moves db d r rows before pending plain e =
      Moves-extend db d (record d { invitations = rows }) before
        λ k. elim (ℕ-cases k r.id) [
          | inl here' ↦ inr (
              subst (λ j. Step (t.invitation.get j d.invitations) (t.invitation.get j rows))
                (sym here')
                (subst (λ o. Step o (t.invitation.get r.id rows))
                  (sym (t.invitation.create-fresh r d.invitations rows e))
                  (subst (λ o. Step none o) (sym (created-new t.invitation r d.invitations rows e))
                    (issuing r pending plain))))
          | inr other ↦ inl (ground (arith, t.invitation.get-create r d.invitations rows k e))
        ]

  pub Moves-refl : (db : Db t) → Moves db db
  Moves-refl db k = here

  pub unmoved :
      {A : Type 0} {r : Result A} (db d : Db t) → Moves db d → Ends (λ r. Moves db r.1) (r, d)
  unmoved db d before = record { holds = before }
