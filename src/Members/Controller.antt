-- ===== src/Members/Controller.antt =====
-- apps/api/src/modules/members/members.controller.ts with the routes of members.routes.ts and the
-- transfer route of organizations.routes.ts: each request runs through requireMembership and
-- requirePermission before its handler. A list of members is not modelled.
use tasks_platform.Common.{ℕ, Option, some, List, [], ◌∷◌}
use tasks_platform.Errors.{unauthorized}
use tasks_platform.Authorization.Permissions.{
  Role, Permission, member_update_role, member_remove, member_leave, ownership_transfer,
}
use tasks_platform.Database.Client.{Db, Prisma, Action, pure, or_throw, ◌>>=◌, ◌>>◌}
use tasks_platform.Members.Gate.{
  AuthContext, MembershipContext, require_membership, require_permission, require_user_id,
  require_user_actor,
}
use tasks_platform.Members.Service

-- The requests that change the members of an organization.
pub data Request : Type 0 where
  update_role : ℕ → ℕ → Role → Request
  remove : ℕ → ℕ → Request
  leave : ℕ → Request
  transfer_ownership : ℕ → ℕ → Request

module _ (prisma : Prisma) where
  -- The two middlewares in front of every handler.
  unfoldable pub admit :
      Option AuthContext → ℕ → Permission → Action prisma.tables MembershipContext
  admit auth organization_id permission = do
    membership ← require_membership auth organization_id
    require_permission permission auth (some membership)
    pure membership

  unfoldable pub serve : Option AuthContext → Request → Action prisma.tables (Unit {0})
  serve auth (update_role organization_id target_user_id role) = do
    membership ← admit auth organization_id member_update_role
    actor ← require_user_actor auth (some membership)
    Service.update_role prisma membership.organization_id actor.1 target_user_id role
    pure tt
  serve auth (remove organization_id target_user_id) = do
    membership ← admit auth organization_id member_remove
    actor ← require_user_actor auth (some membership)
    Service.remove prisma membership.organization_id actor.1 target_user_id
  serve auth (leave organization_id) = do
    membership ← admit auth organization_id member_leave
    user_id ← require_user_id auth
    Service.leave prisma membership.organization_id user_id
  serve auth (transfer_ownership organization_id new_owner_user_id) = do
    membership ← admit auth organization_id ownership_transfer
    membership_id ←
        or_throw membership.membership_id
          (unauthorized (some "This action requires a user, not an API key"))
    Service.transfer_ownership prisma membership.organization_id membership_id new_owner_user_id

  -- Requests one after another, each by its own caller, whatever becomes of each.
  unfoldable pub serve_all :
      List (Option AuthContext × Request) → Db prisma.tables → Db prisma.tables
  serve_all [] db = db
  serve_all ((auth, request) ∷ rest) db = serve_all rest (serve auth request db).1
