-- ===== src/Authorization/Actor/Laws.antt =====
-- What an actor may do to one resource, and how far a key's scopes can reach.
use tasks_platform.Common.{ℕ, ◌≡◌, refl, Bool, true, not, ◌&&◌, ◌||◌, List, arith}
use tasks_platform.Authorization.Permissions.{
  Role, owner, admin, Permission, includes, role_has_permission, can_act_on_resource,
  every_permission,
}
use tasks_platform.Authorization.Actor.{
  user, api_key, actor_has_permission, can_actor_act_on_resource,
  is_permission_grantable_to_api_key,
}

-- For a member the decision is the matrix's own-or-any decision for the member's role.
pub can_actor_act_on_resource-user :
    (id : ℕ) (role : Role) (p q : Permission) (is_own : Bool)
    → can_actor_act_on_resource (user id role) p q is_own ≡ can_act_on_resource role p q is_own
unfolding can_actor_act_on_resource can_act_on_resource actor_has_permission
can_actor_act_on_resource-user id role p q is_own = ground arith

-- For a key it is whether the scopes hold the `:any` permission, whatever the key is said to own.
pub can_actor_act_on_resource-api_key :
    (id : ℕ) (scopes : List Permission) (p q : Permission) (is_own : Bool)
    → can_actor_act_on_resource (api_key id scopes) p q is_own ≡ includes scopes p
unfolding can_actor_act_on_resource actor_has_permission
can_actor_act_on_resource-api_key id scopes p q is_own = ground arith

grantable_held : Permission → Bool
unfolding is_permission_grantable_to_api_key role_has_permission
grantable_held p =
    not (is_permission_grantable_to_api_key p)
    || role_has_permission admin p && role_has_permission owner p

-- Whatever a key can be granted, every administrator and owner may do too.
is_permission_grantable-held :
    (p : Permission)
    → is_permission_grantable_to_api_key p ≡ true
    → (role_has_permission admin p ≡ true) × (role_has_permission owner p ≡ true)
is_permission_grantable-held p h =
    let held : grantable_held p ≡ true =
      every_permission grantable_held (unfold grantable_held in refl) p in
    unfold grantable_held in ground arith
