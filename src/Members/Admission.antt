-- ===== src/Members/Admission.antt =====
-- What the middlewares have established when they let a request through.
use tasks_platform.Common.{ℕ, ◌≡◌, inl, inr, refl, true, Option, none, some, arith, Option-cases}
use tasks_platform.Authorization.Permissions.{
  Role, owner, admin, member, viewer, Permission, ownership_transfer, includes, role_has_permission,
}
use tasks_platform.Database.Schema.{Membership}
use tasks_platform.Database.Client.{Db, Prisma, ok, ensure, or_throw}
use tasks_platform.Members.Repository
use tasks_platform.Members.Repository.{membership_of}
use tasks_platform.Members.Gate.{
  AuthContext, user_auth, api_key_auth, MembershipContext, of_membership, find_organization,
  resolve, require_membership, require_permission, require_user_actor, require_user_id,
}
use tasks_platform.Members.Controller.{admit}

-- Only an owner may transfer the ownership.
pub ownership_transfer-owner :
    (role : Role) → role_has_permission role ownership_transfer ≡ true → role ≡ owner
unfolding role_has_permission
ownership_transfer-owner owner h = refl
ownership_transfer-owner admin h = absurd (cc)
ownership_transfer-owner member h = absurd (cc)
ownership_transfer-owner viewer h = absurd (cc)

module _ (prisma : Prisma) where
  open prisma use {tables}

  -- Who was let in: a key of the organization whose scopes hold the permission, or a user whose
  -- membership of the organization has a role that holds it.
  abbrev pub Admitted : Db tables → AuthContext → ℕ → Permission → MembershipContext → Type 0
  Admitted db (api_key_auth id key_organization_id scopes) organization_id permission m =
      (key_organization_id ≡ organization_id)
      × (includes scopes permission ≡ true)
      × (m ≡ record { organization_id = organization_id; membership_id = none; role = none })
  Admitted db (user_auth user_id) organization_id permission m =
      (row : Membership) × (tables.membership.find_first (membership_of user_id organization_id)
          db.memberships
        ≡ some row)
      × (role_has_permission row.role permission ≡ true)
      × (m ≡ of_membership organization_id row)

  -- Whoever passes the two middlewares is a key of the organization whose scopes hold the permission, or a
  -- user whose membership of it has a role that holds it; the context tells which, and nothing is written.
  pub admit-Admitted :
      (auth : Option AuthContext) (organization_id : ℕ) (permission : Permission)
      (db after : Db tables) (m : MembershipContext)
      → admit prisma auth organization_id permission db ≡ (ok m, after)
      → (a : AuthContext) × (auth ≡ some a)
        × (after ≡ db)
        × Admitted db a organization_id permission m
  unfolding admit require_membership find_organization resolve require_permission ensure or_throw
      Repository.find_by_user_and_organization
  admit-Admitted none org p db after m e = absurd (cc)
  admit-Admitted (some (api_key_auth id key_org scopes)) org p db after m e =
      (api_key_auth id key_org scopes, refl, ground arith, ground arith)
  admit-Admitted (some (user_auth id)) org p db after m e =
      elim (Option-cases (tables.membership.find_first (membership_of id org) db.memberships)) [
        | inl absent ↦ absurd (ground arith)
        | inr (row, found) ↦
            (user_auth id, refl, ground arith, (row, found, ground arith, ground arith))
      ]

  -- Whatever they decide, they write nothing.
  pub admit-reads :
      (auth : Option AuthContext) (organization_id : ℕ) (permission : Permission) (db : Db tables)
      → (admit prisma auth organization_id permission db).1 ≡ db
  unfolding admit require_membership find_organization resolve require_permission ensure or_throw
      Repository.find_by_user_and_organization
  admit-reads none org p db = refl
  admit-reads (some (api_key_auth id key_org scopes)) org p db = ground arith
  admit-reads (some (user_auth id)) org p db = ground arith

  pub require_user_actor-reads :
      (auth : Option AuthContext) (m : Option MembershipContext) (db : Db tables)
      → (require_user_actor auth m db).1 ≡ db
  unfolding require_user_actor or_throw
  require_user_actor-reads none m db = refl
  require_user_actor-reads (some (api_key_auth id org scopes)) m db = refl
  require_user_actor-reads (some (user_auth id)) m db = ground arith

  pub require_user_id-reads :
      (auth : Option AuthContext) (db : Db tables) → (require_user_id auth db).1 ≡ db
  unfolding require_user_id
  require_user_id-reads none db = refl
  require_user_id-reads (some (api_key_auth id org scopes)) db = refl
  require_user_id-reads (some (user_auth id)) db = refl
