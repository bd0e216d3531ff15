-- ===== src/Authorization/Permissions.antt =====
-- apps/api/src/shared/authorization/permissions.ts: the permission vocabulary, the matrix from roles
-- to permissions, and the order of the roles.
pub mod Matrix
use tasks_platform.Common.{
  ℕ, String, ◌≡◌, refl, Bool, true, false, not, ◌&&◌, ◌||◌, Option, none, some, List, [], ◌∷◌, ltb,
  ◌==◌, str_eq, if◌then◌else◌, all, get_elem?, all-get_elem?,
}

-- packages/contracts/src/roles.schema.ts
pub data Role : Type 0 where
  owner admin member viewer : Role

pub data Permission : Type 0 where
  organization_update organization_delete member_list member_update_role member_remove member_leave
        ownership_transfer invitation_create invitation_list invitation_revoke project_create
        project_read project_update project_delete task_create task_read task_assign task_update_own
        task_update_any task_delete_own task_delete_any task_assign_self comment_create
        comment_update_own comment_delete_own comment_delete_any label_manage webhook_manage
        apikey_manage :
      Permission

-- The spelling of each permission in the list `PERMISSIONS`.
pub permission_name : Permission → String
permission_name organization_update = "organization:update"
permission_name organization_delete = "organization:delete"
permission_name member_list = "member:list"
permission_name member_update_role = "member:update-role"
permission_name member_remove = "member:remove"
permission_name member_leave = "member:leave"
permission_name ownership_transfer = "ownership:transfer"
permission_name invitation_create = "invitation:create"
permission_name invitation_list = "invitation:list"
permission_name invitation_revoke = "invitation:revoke"
permission_name project_create = "project:create"
permission_name project_read = "project:read"
permission_name project_update = "project:update"
permission_name project_delete = "project:delete"
permission_name task_create = "task:create"
permission_name task_read = "task:read"
permission_name task_assign = "task:assign"
permission_name task_update_own = "task:update:own"
permission_name task_update_any = "task:update:any"
permission_name task_delete_own = "task:delete:own"
permission_name task_delete_any = "task:delete:any"
permission_name task_assign_self = "task:assign:self"
permission_name comment_create = "comment:create"
permission_name comment_update_own = "comment:update:own"
permission_name comment_delete_own = "comment:delete:own"
permission_name comment_delete_any = "comment:delete:any"
permission_name label_manage = "label:manage"
permission_name webhook_manage = "webhook:manage"
permission_name apikey_manage = "apikey:manage"

abbrev pub permissions : List Permission
permissions =
    organization_update ∷ organization_delete ∷ member_list ∷ member_update_role ∷ member_remove
    ∷ member_leave ∷ ownership_transfer ∷ invitation_create ∷ invitation_list ∷ invitation_revoke
    ∷ project_create ∷ project_read ∷ project_update ∷ project_delete ∷ task_create ∷ task_read
    ∷ task_assign ∷ task_update_own ∷ task_update_any ∷ task_delete_own ∷ task_delete_any
    ∷ task_assign_self ∷ comment_create ∷ comment_update_own ∷ comment_delete_own
    ∷ comment_delete_any ∷ label_manage ∷ webhook_manage ∷ apikey_manage ∷ []

-- `===` on permissions: the place in `PERMISSIONS` tells them apart.
abbrev pub permission_index : Permission → ℕ
permission_index organization_update = 0
permission_index organization_delete = 1
permission_index member_list = 2
permission_index member_update_role = 3
permission_index member_remove = 4
permission_index member_leave = 5
permission_index ownership_transfer = 6
permission_index invitation_create = 7
permission_index invitation_list = 8
permission_index invitation_revoke = 9
permission_index project_create = 10
permission_index project_read = 11
permission_index project_update = 12
permission_index project_delete = 13
permission_index task_create = 14
permission_index task_read = 15
permission_index task_assign = 16
permission_index task_update_own = 17
permission_index task_update_any = 18
permission_index task_delete_own = 19
permission_index task_delete_any = 20
permission_index task_assign_self = 21
permission_index comment_create = 22
permission_index comment_update_own = 23
permission_index comment_delete_own = 24
permission_index comment_delete_any = 25
permission_index label_manage = 26
permission_index webhook_manage = 27
permission_index apikey_manage = 28

unfoldable pub includes : List Permission → Permission → Bool
includes [] p = false
includes (q ∷ qs) p = permission_index q == permission_index p || includes qs p

-- The permission that a text spells, if it is one of the given ones.
pub spelled_in : List Permission → String → Option Permission
spelled_in [] value = none
spelled_in (p ∷ ps) value = if str_eq (permission_name p) value then some p else spelled_in ps value

unfoldable pub is_permission : String → Option Permission
unfolding spelled_in permission_name
is_permission value = spelled_in permissions value

abbrev pub role_permissions : Role → List Permission
role_permissions owner =
    organization_update ∷ organization_delete ∷ member_list ∷ member_update_role ∷ member_remove
    ∷ member_leave ∷ ownership_transfer ∷ invitation_create ∷ invitation_list ∷ invitation_revoke
    ∷ project_create ∷ project_read ∷ project_update ∷ project_delete ∷ task_create ∷ task_read
    ∷ task_assign ∷ task_update_own ∷ task_update_any ∷ task_delete_own ∷ task_delete_any
    ∷ comment_create ∷ comment_update_own ∷ comment_delete_own ∷ comment_delete_any ∷ label_manage
    ∷ webhook_manage ∷ apikey_manage ∷ []
role_permissions admin =
    organization_update ∷ member_list ∷ member_update_role ∷ member_remove ∷ member_leave
    ∷ invitation_create ∷ invitation_list ∷ invitation_revoke ∷ project_create ∷ project_read
    ∷ project_update ∷ project_delete ∷ task_create ∷ task_read ∷ task_assign ∷ task_update_own
    ∷ task_update_any ∷ task_delete_own ∷ task_delete_any ∷ comment_create ∷ comment_update_own
    ∷ comment_delete_own ∷ comment_delete_any ∷ label_manage ∷ webhook_manage ∷ apikey_manage ∷ []
role_permissions member =
    member_list ∷ member_leave ∷ project_read ∷ task_create ∷ task_read ∷ task_update_own
    ∷ task_delete_own ∷ task_assign_self ∷ comment_create ∷ comment_update_own ∷ comment_delete_own
    ∷ []
role_permissions viewer = member_list ∷ member_leave ∷ project_read ∷ task_read ∷ []

unfoldable pub role_has_permission : Role → Permission → Bool
unfolding includes
role_has_permission role permission = includes (role_permissions role) permission

unfoldable pub can_act_on_resource : Role → Permission → Permission → Bool → Bool
can_act_on_resource role any_permission own_permission is_own_resource =
    role_has_permission role any_permission
    || (is_own_resource && role_has_permission role own_permission)

abbrev pub role_rank : Role → ℕ
role_rank owner = 3
role_rank admin = 2
role_rank member = 1
role_rank viewer = 0

unfoldable pub is_role_above : Role → Role → Bool
is_role_above role other = ltb (role_rank other) (role_rank role)

abbrev pub is_owner : Role → Bool
is_owner owner = true
is_owner admin = false
is_owner member = false
is_owner viewer = false

unfoldable pub can_manage_role : Role → Role → Bool
unfolding is_role_above
can_manage_role actor_role target_role = is_owner actor_role || is_role_above actor_role target_role

unfoldable pub can_grant_role : Role → Role → Bool
unfolding is_role_above
can_grant_role actor_role granted_role =
    not (is_owner granted_role) && not (is_role_above granted_role actor_role)

pub get_elem?-permissions : (p : Permission) → get_elem? permissions (permission_index p) ≡ some p
get_elem?-permissions organization_update = refl
get_elem?-permissions _ = refl

-- What a check over the whole vocabulary finds true is true of every permission.
pub every_permission :
    (test : Permission → Bool) → all test permissions ≡ true → (p : Permission) → test p ≡ true
every_permission test h p =
    all-get_elem? test permissions (permission_index p) h (get_elem?-permissions p)
