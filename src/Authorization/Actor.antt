-- ===== src/Authorization/Actor.antt =====
-- apps/api/src/shared/authorization/actor.ts and api-key-scopes.ts: a member or an API key as the
-- one who performs a write.
pub mod Laws
use tasks_platform.Common.{
  ℕ, Bool, true, false, ◌&&◌, ◌||◌, Option, none, some, List, [], ◌∷◌, ◌++◌,
}
use tasks_platform.Authorization.Permissions.{
  Role, Permission, project_read, task_read, member_list, project_create, project_update,
  task_create, task_update_any, task_assign, comment_create, label_manage, includes,
  role_has_permission,
}

pub data Actor : Type 0 where
  user : ℕ → Role → Actor
  api_key : ℕ → List Permission → Actor

abbrev pub is_user : Actor → Bool
is_user (user id role) = true
is_user (api_key id scopes) = false

unfoldable pub actor_has_permission : Actor → Permission → Bool
actor_has_permission (user id role) permission = role_has_permission role permission
actor_has_permission (api_key id scopes) permission = includes scopes permission

unfoldable pub can_actor_act_on_resource : Actor → Permission → Permission → Bool → Bool
can_actor_act_on_resource actor any_permission own_permission is_own_resource =
    actor_has_permission actor any_permission
    || (is_user actor && is_own_resource && actor_has_permission actor own_permission)

pub record ActorColumns : Type 0 where
  pub user_id : Option ℕ
  pub api_key_id : Option ℕ

abbrev pub actor_columns : Actor → ActorColumns
actor_columns (user id role) = record { user_id = some id; api_key_id = none }
actor_columns (api_key id scopes) = record { user_id = none; api_key_id = some id }

abbrev pub api_key_read_scopes : List Permission
api_key_read_scopes = project_read ∷ task_read ∷ member_list ∷ []

abbrev pub api_key_write_scopes : List Permission
api_key_write_scopes =
    project_create ∷ project_update ∷ task_create ∷ task_update_any ∷ task_assign ∷ comment_create
    ∷ label_manage ∷ []

abbrev pub api_key_allowed_permissions : List Permission
api_key_allowed_permissions = api_key_read_scopes ++ api_key_write_scopes

unfoldable pub is_permission_grantable_to_api_key : Permission → Bool
is_permission_grantable_to_api_key permission = includes api_key_allowed_permissions permission
