-- ===== src/Members/Gate.antt =====
-- apps/api/src/shared/authorization/require-membership.middleware.ts, require-permission.middleware.ts
-- and request-actor.ts: from an authenticated request to the actor that a controller hands on.
use tasks_platform.Common.{ℕ, Bool, false, ◌&&◌, not, Option, none, some, List, ◌==◌, is_some}
use tasks_platform.Errors.{AppError, unauthorized, forbidden, not_found}
use tasks_platform.Authorization.Permissions.{Role, Permission, includes, role_has_permission}
use tasks_platform.Authorization.Actor.{Actor, user, api_key}
use tasks_platform.Database.Schema.{Organization, Membership}
use tasks_platform.Database.Client.{Tables, Action, ok, pure, throw, ensure, or_throw, ◌>>=◌, ◌>>◌}
use tasks_platform.Members.Repository

-- `req.auth`
pub data AuthContext : Type 0 where
  user_auth : ℕ → AuthContext
  api_key_auth : ℕ → ℕ → List Permission → AuthContext

-- `req.membership`
pub record MembershipContext : Type 0 where
  pub organization_id : ℕ
  pub membership_id : Option ℕ
  pub role : Option Role

abbrev pub missing_organization : AppError
missing_organization = not_found (some "Organization not found")

abbrev pub of_membership : ℕ → Membership → MembershipContext
of_membership organization_id m = record {
  organization_id = organization_id;
  membership_id = some m.id;
  role = some m.role;
}

abbrev pub role_allows : Option Role → Permission → Bool
role_allows none permission = false
role_allows (some role) permission = role_has_permission role permission

abbrev role_of : Option MembershipContext → Option Role
role_of none = none
role_of (some m) = m.role

module _ {t : Tables} where
  -- organizationsRepository.findById
  unfoldable pub find_organization : ℕ → Action t (Option Organization)
  find_organization id db = (
    ok (t.organization.find_first (λ o. o.id == id && not (is_some o.deleted_at)) db.organizations),
    db,
  )

  unfoldable pub resolve : AuthContext → ℕ → Action t MembershipContext
  resolve (api_key_auth api_key_id key_organization_id scopes) organization_id =
      ensure (key_organization_id == organization_id) missing_organization
      >> pure (record { organization_id = organization_id; membership_id = none; role = none })
  resolve (user_auth user_id) organization_id = do
    membership ← Repository.find_by_user_and_organization user_id organization_id
    m ← or_throw membership missing_organization
    pure (of_membership organization_id m)

  unfoldable pub require_membership : Option AuthContext → ℕ → Action t MembershipContext
  require_membership none organization_id =
      throw (unauthorized (some "Missing authentication context"))
  require_membership (some auth) organization_id = do
    organization ← find_organization organization_id
    or_throw organization missing_organization
    resolve auth organization_id

  -- The text of a refusal names the permission; it is left out here.
  unfoldable pub require_permission :
      Permission → Option AuthContext → Option MembershipContext → Action t (Unit {0})
  require_permission permission none membership =
      throw (unauthorized (some "Missing membership context"))
  require_permission permission (some auth) none =
      throw (unauthorized (some "Missing membership context"))
  require_permission permission (some (api_key_auth id org scopes)) (some membership) =
      ensure (includes scopes permission) (forbidden none)
  require_permission permission (some (user_auth id)) (some membership) =
      ensure (role_allows membership.role permission) (forbidden none)

  unfoldable pub require_user_id : Option AuthContext → Action t ℕ
  require_user_id none = throw (unauthorized (some "Missing authentication context"))
  require_user_id (some (api_key_auth id org scopes)) =
      throw (forbidden (some "This action requires a user, not an API key"))
  require_user_id (some (user_auth id)) = pure id

  unfoldable pub require_actor : Option AuthContext → Option MembershipContext → Action t Actor
  require_actor none membership = throw (unauthorized (some "Missing authentication context"))
  require_actor (some (api_key_auth id org scopes)) membership = pure (api_key id scopes)
  require_actor (some (user_auth id)) membership = do
    role ← or_throw (role_of membership) (unauthorized (some "Missing membership context"))
    pure (user id role)

  abbrev pub user_only : Actor → Action t (ℕ × Role)
  user_only (user id role) = pure (id, role)
  user_only (api_key id scopes) =
      throw (forbidden (some "This action requires a user, not an API key"))

  unfoldable pub require_user_actor :
      Option AuthContext → Option MembershipContext → Action t (ℕ × Role)
  unfolding require_actor
  require_user_actor auth membership = do actor ← require_actor auth membership; user_only actor
