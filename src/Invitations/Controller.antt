-- ===== src/Invitations/Controller.antt =====
-- apps/api/src/modules/invitations/invitations.controller.ts with the routes of invitations.routes.ts: the
-- requests that write. What the database, the clock and node:crypto give to a request is in its draws.
use tasks_platform.Common.{ℕ, String, Option, some, List, [], ◌∷◌}
use tasks_platform.Authorization.Permissions.{Role, invitation_create, invitation_revoke}
use tasks_platform.Database.Client.{Db, Prisma, Result, Action, pure, ◌>>=◌, ◌>>◌}
use tasks_platform.Members.Gate.{AuthContext, require_user_actor, require_user_id}
use tasks_platform.Members.Controller.{admit}
use tasks_platform.Accounts.Users.{get_by_id}
use tasks_platform.Invitations.Service

pub record Draws : Type 0 where
  pub now : ℕ
  pub id : ℕ
  pub token_hash : String
  pub queued : Result (Unit {0})

pub data Request : Type 0 where
  create : ℕ → String → Role → Request
  revoke : ℕ → ℕ → Request
  accept : String → Request

module _ (prisma : Prisma) where
  unfoldable pub serve : Draws → Option AuthContext → Request → Action prisma.tables (Unit {0})
  serve draws auth (create organization_id email role) = do
    membership ← admit prisma auth organization_id invitation_create
    inviter ← require_user_actor auth (some membership)
    Service.create draws.queued draws.now draws.id draws.token_hash membership.organization_id
        inviter.0 inviter.1 email role
    pure tt
  serve draws auth (revoke organization_id invitation_id) = do
    membership ← admit prisma auth organization_id invitation_revoke
    Service.revoke draws.now membership.organization_id invitation_id
  serve draws auth (accept token_hash) = do
    user_id ← require_user_id auth
    user ← get_by_id user_id
    Service.accept prisma draws.now draws.id token_hash user_id user.email

  -- Requests one after another, each by its own caller, whatever becomes of each.
  unfoldable pub serve_all :
      List (Draws × Option AuthContext × Request) → Db prisma.tables → Db prisma.tables
  serve_all [] db = db
  serve_all ((draws, auth, request) ∷ rest) db = serve_all rest (serve draws auth request db).1
