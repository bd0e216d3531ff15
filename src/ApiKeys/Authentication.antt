-- ===== src/ApiKeys/Authentication.antt =====
-- apps/api/src/modules/auth/require-auth.middleware.ts: the credential of a request, an access token or an
-- API key. The hash of a token and what the check of an access token finds, the user's key, are parameters.
use Prim.Native.Char.{code}
use tasks_platform.Common.{ℕ, String, Bool, Option, none, some, ◌==◌, str_eq, if◌then◌else◌}
use tasks_platform.Errors.{unauthorized}
use tasks_platform.Database.Client.{Tables, Action, pure, throw, or_throw, ◌>>=◌}
use tasks_platform.Members.Gate.{AuthContext, user_auth, api_key_auth}
use tasks_platform.ApiKeys.Service.{ApiKeyAuthentication, authenticated, rejected, authenticate}

-- What follows a prefix: `startsWith`, then `slice`.
unfoldable pub after_prefix : String → String → Option String
after_prefix String.[] s = some s
after_prefix (String.◌∷◌ c p) String.[] = none
after_prefix (String.◌∷◌ c p) (String.◌∷◌ d s) = if code c == code d then after_prefix p s else none

abbrev pub bearer_prefix : String
bearer_prefix = "Bearer "

abbrev pub api_key_prefix : String
api_key_prefix = "tp_live_"

-- A credential that is empty is as good as none.
abbrev pub non_empty : Option String → Option String
non_empty none = none
non_empty (some s) = if str_eq s "" then none else some s

abbrev pub bearer : Option String → Option String
bearer none = none
bearer (some header) = after_prefix bearer_prefix header

module _ {t : Tables} (hash_token : String → String) (verify_access_token : String → Option ℕ) where
  abbrev pub of_key : ApiKeyAuthentication → Action t AuthContext
  of_key (authenticated id organization_id scopes) = pure (api_key_auth id organization_id scopes)
  of_key (rejected reason) = throw (unauthorized (some "Invalid, revoked or expired API key"))

  abbrev pub of_token : Option ℕ → Action t AuthContext
  of_token none = throw (unauthorized (some "Invalid or expired access token"))
  of_token (some user_id) = pure (user_auth user_id)

  abbrev pub of_credential : Bool → ℕ → String → Option String → Action t AuthContext
  of_credential noted now credential (some rest) =
      authenticate noted now (hash_token credential) >>= of_key
  of_credential noted now credential none = of_token (verify_access_token credential)

  unfoldable pub require_auth : Bool → ℕ → Option String → Action t AuthContext
  unfolding after_prefix
  require_auth noted now header = do
    credential ← or_throw (non_empty (bearer header)) (unauthorized (some "Missing access token"))
    of_credential noted now credential (after_prefix api_key_prefix credential)
