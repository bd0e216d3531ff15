-- ===== src/Members/Repository.antt =====
-- apps/api/src/modules/members/members.repository.ts: the queries on the memberships.
use tasks_platform.Common.{
  ℕ, ◌≡◌, refl, Bool, ◌&&◌, Option, none, some, ◌==◌, if◌then◌else◌, map_option,
}
use tasks_platform.Authorization.Permissions.{Role, role_rank}
use tasks_platform.Database.Table.{Keeps, update-found, update-missing, get-updated}
use tasks_platform.Database.Schema.{Membership}
use tasks_platform.Database.Client.{Tables, Db, Action, ok, err, stored, prisma_error}

-- `where: { userId_organizationId: { userId, organizationId } }`
abbrev pub membership_of : ℕ → ℕ → Membership → Bool
membership_of user_id organization_id m =
    m.user_id == user_id && m.organization_id == organization_id

abbrev pub with_role : Role → Membership → Membership
with_role role m = record m { role = role }

module _ {t : Tables} where
  unfoldable pub create : Membership → Action t Membership
  create row db =
      stored (t.membership.create row db.memberships) (λ rows. record db { memberships = rows }) row
        db

  unfoldable pub find_by_user_and_organization : ℕ → ℕ → Action t (Option Membership)
  find_by_user_and_organization user_id organization_id db =
      (ok (t.membership.find_first (membership_of user_id organization_id) db.memberships), db)

  unfoldable pub count_by_role : ℕ → Role → Action t ℕ
  count_by_role organization_id role db = (
    ok (
        t.membership.count
          (λ m. m.organization_id == organization_id && role_rank m.role == role_rank role)
          db.memberships),
    db,
  )

  unfoldable pub update_role : ℕ → Role → Action t Membership
  update_role id role db = elim (t.membership.update id (with_role role) db.memberships) [
    | none ↦ (err prisma_error, db)
    | some (row, rows) ↦ (ok row, record db { memberships = rows })
  ]

  unfoldable pub remove : ℕ → Action t (Unit {0})
  remove id db = elim (t.membership.delete id db.memberships) [
    | none ↦ (err prisma_error, db)
    | some rows ↦ (ok tt, record db { memberships = rows })
  ]

module _ (t : Tables) where
  pub with_role-Keeps : (role : Role) → Keeps t.membership (with_role role)
  with_role-Keeps role = (λ r. refl, λ r x h. h)

  -- The rows after `updateRole`: the one row of that key has the new role.
  abbrev pub role_set : ℕ → Role → t.membership.Rows → t.membership.Rows
  role_set id role rows = t.membership.update_many (λ m. m.id == id) (with_role role) rows

  pub get-role_set :
      (id k : ℕ) (role : Role) (rows : t.membership.Rows)
      → t.membership.get k (role_set id role rows) ≡ (
          if k == id
          then map_option (with_role role) (t.membership.get k rows)
          else t.membership.get k rows)
  get-role_set id k role rows =
      get-updated t.membership id k (with_role role) rows (with_role-Keeps role)

  pub update_role_found :
      (id : ℕ) (role : Role) (db : Db t) {m : Membership}
      → t.membership.get id db.memberships ≡ some m
      → update_role id role db
        ≡ (ok (with_role role m), record db { memberships = role_set id role db.memberships })
  unfolding update_role
  update_role_found id role db e = rw (
    update-found t.membership id (with_role role) db.memberships (with_role-Keeps role) e,
    update_role,
  )

  pub update_role_missing :
      (id : ℕ) (role : Role) (db : Db t)
      → t.membership.get id db.memberships ≡ none
      → update_role id role db ≡ (err prisma_error, db)
  unfolding update_role
  update_role_missing id role db e = rw (
    update-missing t.membership id (with_role role) db.memberships (with_role-Keeps role) e,
    update_role,
  )

  pub remove_done :
      (id : ℕ) (db : Db t) {after : t.membership.Rows}
      → t.membership.delete id db.memberships ≡ some after
      → remove id db ≡ (ok tt, record db { memberships = after })
  unfolding remove
  remove_done id db e = rw (e, remove)

  pub remove_failed :
      (id : ℕ) (db : Db t)
      → t.membership.delete id db.memberships ≡ none
      → remove id db ≡ (err prisma_error, db)
  unfolding remove
  remove_failed id db e = rw (e, remove)
