-- ===== src/Accounts/Sessions.antt =====
-- apps/api/src/modules/auth/auth.service.ts and auth.repository.ts, less registration and login: the
-- refresh tokens, each kept by its hash, and their rotation. The hash of a presented token is an
-- argument, and so are a new token's, with its key and the time; logging is left out.
use tasks_platform.Common.{
  ℕ, ◌+◌, ◌*◌, String, Bool, ◌&&◌, not, Option, none, some, ◌==◌, str_eq, ltb, is_some, is_id,
  map_option, if◌then◌else◌,
}
use tasks_platform.Errors.{unauthorized}
use tasks_platform.Database.Schema.{RefreshToken}
use tasks_platform.Database.Client.{
  Tables, Prisma, Action, ok, pure, throw, refuse, or_throw, stored, changed, ◌>>=◌, ◌>>◌,
}

-- `REFRESH_TOKEN_TTL_DAYS * 24 * 60 * 60 * 1000`
abbrev pub refresh_token_ttl : ℕ
refresh_token_ttl = 30 * 24 * 60 * 60 * 1000

pub record RequestMeta : Type 0 where
  pub user_agent : Option String
  pub ip_address : Option String

-- What `generateRefreshToken` and the column defaults draw.
pub record NewToken : Type 0 where
  pub id : ℕ
  pub token_hash : String

abbrev pub token_row : ℕ → NewToken → ℕ → ℕ → RequestMeta → RefreshToken
token_row now new user_id family_id meta = record {
  id = new.id;
  user_id = user_id;
  token_hash = new.token_hash;
  family_id = family_id;
  expires_at = now + refresh_token_ttl;
  revoked_at = none;
  replaced_by_id = none;
  created_at = now;
  user_agent = meta.user_agent;
  ip_address = meta.ip_address;
}

abbrev pub revoked : ℕ → RefreshToken → RefreshToken
revoked now token = record token { revoked_at = some now }

abbrev pub replaced : ℕ → ℕ → RefreshToken → RefreshToken
replaced now by token = record token { revoked_at = some now; replaced_by_id = some by }

-- `familyId, revokedAt: null` and `userId, revokedAt: null, id: { not: exceptId }`
abbrev pub live_of_family : ℕ → RefreshToken → Bool
live_of_family family_id token = token.family_id == family_id && not (is_some token.revoked_at)

abbrev pub live_of_user : ℕ → Option ℕ → RefreshToken → Bool
live_of_user user_id except_id token =
    token.user_id == user_id && not (is_some token.revoked_at) && not (is_id except_id token.id)

module _ {t : Tables} where
  unfoldable pub create_refresh_token : RefreshToken → Action t RefreshToken
  create_refresh_token row db =
      stored (t.refresh_token.create row db.refresh_tokens)
        (λ rows. record db { refresh_tokens = rows }) row db

  unfoldable pub find_refresh_token_by_hash : String → Action t (Option RefreshToken)
  find_refresh_token_by_hash token_hash db = (
    ok (t.refresh_token.find_first (λ token. str_eq token.token_hash token_hash) db.refresh_tokens),
    db,
  )

  unfoldable pub revoke_and_replace : ℕ → ℕ → ℕ → Action t RefreshToken
  revoke_and_replace now id replaced_by_id db =
      changed (t.refresh_token.update id (replaced now replaced_by_id) db.refresh_tokens)
        (λ rows. record db { refresh_tokens = rows }) db

  unfoldable pub revoke_by_id : ℕ → ℕ → Action t RefreshToken
  revoke_by_id now id db =
      changed (t.refresh_token.update id (revoked now) db.refresh_tokens)
        (λ rows. record db { refresh_tokens = rows }) db

  unfoldable pub revoke_family : ℕ → ℕ → Action t (Unit {0})
  revoke_family now family_id db = (
    ok tt,
    record db {
      refresh_tokens =
          t.refresh_token.update_many (live_of_family family_id) (revoked now) db.refresh_tokens;
    },
  )

  unfoldable pub revoke_all_for_user : ℕ → ℕ → Option ℕ → Action t (Unit {0})
  revoke_all_for_user now user_id except_id db = (
    ok tt,
    record db {
      refresh_tokens =
          t.refresh_token.update_many (live_of_user user_id except_id) (revoked now)
            db.refresh_tokens;
    },
  )

module _ (prisma : Prisma) where
  unfoldable pub issue_session :
      ℕ → NewToken → ℕ → ℕ → RequestMeta → Action prisma.tables RefreshToken
  issue_session now new user_id family_id meta =
      create_refresh_token (token_row now new user_id family_id meta)

  -- The block of the transaction in `refresh`.
  unfoldable pub rotate :
      ℕ → NewToken → RefreshToken → RequestMeta → Action prisma.tables RefreshToken
  rotate now new token meta = do
    session ← issue_session now new token.user_id token.family_id meta
    revoke_and_replace now token.id session.id
    pure session

  -- A token that is presented again after it was revoked ends its family.
  unfoldable pub detect_reuse : ℕ → ℕ → Option ℕ → Action prisma.tables (Unit {0})
  detect_reuse now family_id none = pure tt
  detect_reuse now family_id (some revoked_at) =
      revoke_family now family_id >> throw (unauthorized (some "Invalid refresh token"))

  unfoldable pub refresh : ℕ → NewToken → String → RequestMeta → Action prisma.tables RefreshToken
  refresh now new token_hash meta = do
    found ← find_refresh_token_by_hash token_hash
    token ← or_throw found (unauthorized (some "Invalid refresh token"))
    detect_reuse now token.family_id token.revoked_at
    refuse (ltb token.expires_at now) (unauthorized (some "Invalid refresh token"))
    prisma.transaction RefreshToken (rotate now new token meta)

  abbrev revoke_found : ℕ → Option RefreshToken → Action prisma.tables (Unit {0})
  revoke_found now none = pure tt
  revoke_found now (some token) =
      if is_some token.revoked_at then pure tt else (revoke_by_id now token.id >> pure tt)

  unfoldable pub logout : ℕ → String → Action prisma.tables (Unit {0})
  logout now token_hash = do found ← find_refresh_token_by_hash token_hash; revoke_found now found

  unfoldable pub revoke_all_sessions : ℕ → ℕ → Action prisma.tables (Unit {0})
  revoke_all_sessions now user_id = revoke_all_for_user now user_id none

  -- The key of the token that is presented, if it is a known one.
  abbrev pub key_of : Option RefreshToken → Option ℕ
  key_of found = map_option (λ token. token.id) found

  abbrev pub find_current : Option String → Action prisma.tables (Option RefreshToken)
  find_current none = pure none
  find_current (some token_hash) = find_refresh_token_by_hash token_hash

  unfoldable pub revoke_other_sessions : ℕ → ℕ → Option String → Action prisma.tables (Unit {0})
  revoke_other_sessions now user_id current_token_hash = do
    current ← find_current current_token_hash
    revoke_all_for_user now user_id (key_of current)
