-- ===== src/ApiKeys/Controller.antt =====
-- apps/api/src/modules/api-keys/api-keys.controller.ts with the routes of api-keys.routes.ts, behind
-- requireAuth, requireMembership and requirePermission: the requests that write.
use tasks_platform.Common.{ℕ, String, Bool, Option, some, List, [], ◌∷◌}
use tasks_platform.Authorization.Permissions.{apikey_manage}
use tasks_platform.Database.Client.{Db, Prisma, Action, pure, ◌>>=◌, ◌>>◌}
use tasks_platform.Members.Gate.{require_user_actor}
use tasks_platform.Members.Controller.{admit}
use tasks_platform.ApiKeys.Service
use tasks_platform.ApiKeys.Service.{NewApiKey}
use tasks_platform.ApiKeys.Authentication.{require_auth}

-- What the clock and the generators give to a request, and whether the last use of its key is noted.
pub record Draws : Type 0 where
  pub noted : Bool
  pub now : ℕ
  pub new : NewApiKey

pub data Request : Type 0 where
  create : ℕ → String → List String → Option ℕ → Request
  revoke : ℕ → ℕ → Request

module _ (prisma : Prisma) (hash_token : String → String)
    (verify_access_token : String → Option ℕ) where
  unfoldable pub serve : Draws → Option String → Request → Action prisma.tables (Unit {0})
  serve draws header (create organization_id name scopes expires_at) = do
    auth ← require_auth hash_token verify_access_token draws.noted draws.now header
    membership ← admit prisma (some auth) organization_id apikey_manage
    creator ← require_user_actor (some auth) (some membership)
    Service.create draws.new membership.organization_id creator.0 creator.1 name scopes expires_at
    pure tt
  serve draws header (revoke organization_id api_key_id) = do
    auth ← require_auth hash_token verify_access_token draws.noted draws.now header
    membership ← admit prisma (some auth) organization_id apikey_manage
    Service.revoke draws.now membership.organization_id api_key_id

  -- Requests one after another, each with its own header, whatever becomes of each.
  unfoldable pub serve_all :
      List (Draws × Option String × Request) → Db prisma.tables → Db prisma.tables
  serve_all [] db = db
  serve_all ((draws, header, request) ∷ rest) db = serve_all rest (serve draws header request db).1
