-- ===== src/Members/Ownership.antt =====
-- An organization has exactly one owner, whatever its members do.
use tasks_platform.Common.{
  ℕ, ◌≡◌, ◌≢◌, ◌↔◌, inl, inr, ap, sym, ◌∙◌, false, some, arith, Option-cases, ℕ-cases,
}
use tasks_platform.Authorization.Permissions.{Role, owner, is_owner}
use tasks_platform.Database.Table.{created-old, created-cases}
use tasks_platform.Database.Schema.{Membership}
use tasks_platform.Database.Client.{Tables, Db, Prisma, Result}
use tasks_platform.Database.Steps.{Ends, refuse-then, ensure-then, or_throw-then}
use tasks_platform.Members.Repository
use tasks_platform.Members.Repository.{
  membership_of, with_role, role_set, get-role_set, update_role_found, remove_failed, remove_done,
}
use tasks_platform.Members.Service

module _ (t : Tables) where
  abbrev pub Owns : t.membership.Rows → ℕ → ℕ → Membership → Type 0
  Owns rows organization_id k m =
      (t.membership.get k rows ≡ some m) × (m.organization_id ≡ organization_id) × (m.role ≡ owner)

  -- The organization has an owner, under the key that is returned, and no other.
  abbrev pub HasOneOwner : ℕ → t.membership.Rows → Type 0
  HasOneOwner organization_id rows =
      (k : ℕ) × (m : Membership) × Owns rows organization_id k m
      × ((j : ℕ) (x : Membership) → Owns rows organization_id j x → j ≡ k)

  -- The same rows are owners before and after.
  abbrev pub KeepsOwners : t.membership.Rows → t.membership.Rows → Type 0
  KeepsOwners before after =
      (k : ℕ) (m : Membership)
      → m.role ≡ owner
      → (t.membership.get k before ≡ some m) ↔ (t.membership.get k after ≡ some m)

  pub HasOneOwner-of_KeepsOwners :
      (organization_id : ℕ) (before after : t.membership.Rows)
      → KeepsOwners before after
      → HasOneOwner organization_id before
      → HasOneOwner organization_id after
  HasOneOwner-of_KeepsOwners org before after keeps (k, m, (found, here, role), only) = (
    k,
    m,
    ((keeps k m role).0 found, here, role),
    λ j x (found', here', role'). only j x ((keeps j x role').1 found', here', role'),
  )

  role_set-KeepsOwners :
      (id : ℕ) (role : Role) (rows : t.membership.Rows) (target : Membership)
      → t.membership.get id rows ≡ some target
      → target.role ≢ owner
      → role ≢ owner
      → KeepsOwners rows (role_set t id role rows)
  role_set-KeepsOwners id role rows target found plain new k m is = elim (ℕ-cases k id) [
    | inl here ↦
        ground (arith, get-role_set t id k role rows, ap (λ i. t.membership.get i rows) here)
    | inr elsewhere ↦ ground (arith, get-role_set t id k role rows)
  ]

  deleted-KeepsOwners :
      (id : ℕ) (rows after : t.membership.Rows) (target : Membership)
      → t.membership.get id rows ≡ some target
      → target.role ≢ owner
      → t.membership.delete id rows ≡ some after
      → KeepsOwners rows after
  deleted-KeepsOwners id rows after target found plain e k m is = elim (ℕ-cases k id) [
    | inl here ↦
        ground
          (arith, t.membership.get-delete id k rows after e, ap (λ i. t.membership.get i rows) here)
    | inr elsewhere ↦ ground (arith, t.membership.get-delete id k rows after e)
  ]

  -- A member who joins in another role.
  pub added-KeepsOwners :
      (m : Membership) (rows after : t.membership.Rows)
      → m.role ≢ owner
      → t.membership.create m rows ≡ some after
      → KeepsOwners rows after
  added-KeepsOwners m rows after plain e k x is = (
    λ found. created-old t.membership m rows after k e found,
    λ found. elim (created-cases t.membership m rows after k x e found) [
      | inl same ↦ absurd (plain (ap (λ (r : Membership). r.role) (sym same) ∙ is))
      | inr old ↦ old
    ],
  )

module _ (prisma : Prisma) where
  found_member :
      (user_id organization_id : ℕ) (db : Db prisma.tables) {m : Membership}
      → prisma.tables.membership.find_first (membership_of user_id organization_id) db.memberships
        ≡ some m
      → prisma.tables.membership.get m.id db.memberships ≡ some m
  found_member user_id organization_id db {m} e =
      (prisma.tables.membership.find_first-some _ db.memberships m e).1

  KeepsOwners-refl : (rows : prisma.tables.membership.Rows) → KeepsOwners prisma.tables rows rows
  KeepsOwners-refl rows k m is = (λ h. h, λ h. h)

  -- How a service ends that leaves the owners alone.
  abbrev pub Kept : {A : Type 0} → Db prisma.tables → Result A × Db prisma.tables → Type 0
  Kept db r = KeepsOwners prisma.tables db.memberships r.1.memberships

  unchanged : {A : Type 0} {r : Result A} {db : Db prisma.tables} → Ends (Kept db) (r, db)
  unchanged {db} = record { holds = KeepsOwners-refl db.memberships }

  pub update_role-Kept :
      (organization_id : ℕ) (actor_role : Role) (target_user_id : ℕ) (new_role : Role)
      (db : Db prisma.tables)
      → Ends
          (Kept db)
          (Service.update_role prisma organization_id actor_role target_user_id new_role db)
  unfolding Service.update_role Service.require_membership_by_user Service.assert_can_manage
  update_role-Kept org actor_role user new_role db =
      or_throw-then db _ _ _ (λ _. unchanged)
        λ m e.
          refuse-then db _ _ _ (λ _. unchanged)
            λ plain.
              refuse-then db _ _ _ (λ _. unchanged)
                λ new_plain.
                  ensure-then db _ _ _ (λ _. unchanged)
                    λ may.
                      let found = found_member user org db e in
                      record {
                        holds = rw (update_role_found prisma.tables m.id new_role db found) (
                            role_set-KeepsOwners prisma.tables m.id new_role db.memberships m found
                              (ground arith) (ground arith));
                      }

  removed-Kept :
      (db : Db prisma.tables) (m : Membership)
      → prisma.tables.membership.get m.id db.memberships ≡ some m
      → is_owner m.role ≡ false
      → Ends (Kept db) (Repository.remove m.id db)
  removed-Kept db m found plain =
      elim (Option-cases (prisma.tables.membership.delete m.id db.memberships)) [
        | inl e ↦ rw (remove_failed prisma.tables m.id db e) unchanged
        | inr (after, e) ↦ rw (remove_done prisma.tables m.id db e) (record {
          holds =
              deleted-KeepsOwners prisma.tables m.id db.memberships after m found (ground arith) e;
        })
      ]

  pub remove-Kept :
      (organization_id : ℕ) (actor_role : Role) (target_user_id : ℕ) (db : Db prisma.tables)
      → Ends (Kept db) (Service.remove prisma organization_id actor_role target_user_id db)
  unfolding Service.remove Service.require_membership_by_user Service.assert_can_manage
  remove-Kept org actor_role user db =
      or_throw-then db _ _ _ (λ _. unchanged)
        λ m e.
          refuse-then db _ _ _ (λ _. unchanged)
            λ plain.
              ensure-then db _ _ _ (λ _. unchanged)
                λ may. removed-Kept db m (found_member user org db e) plain

  pub leave-Kept :
      (organization_id user_id : ℕ) (db : Db prisma.tables)
      → Ends (Kept db) (Service.leave prisma organization_id user_id db)
  unfolding Service.leave Service.require_membership_by_user
  leave-Kept org user db =
      or_throw-then db _ _ _ (λ _. unchanged)
        λ m e.
          refuse-then db _ _ _ (λ _. unchanged)
            λ plain. removed-Kept db m (found_member user org db e) plain
