-- ===== src/Accounts/Tokens.antt =====
-- packages/shared/src/account-tokens (account-tokens.service.ts, account-tokens.repository.ts) and the
-- two writes of apps/api/src/modules/users that consumed tokens authorize. The hash of a presented
-- token is an argument, and so are a new token's key and hash and the time.
use tasks_platform.Common.{
  ℕ, ◌+◌, ◌*◌, String, Bool, ◌&&◌, ◌||◌, not, Option, none, some, ◌==◌, str_eq, ltb, leb, is_some,
  if◌then◌else◌,
}
use tasks_platform.Database.Schema.{User, AccountToken}
use tasks_platform.Database.Client.{Tables, Action, ok, pure, stored, changed, ◌>>=◌}

pub data AccountTokenPurpose : Type 0 where
  email_verification password_reset : AccountTokenPurpose

abbrev pub hour_ms : ℕ
hour_ms = 60 * 60 * 1000

abbrev pub account_token_ttl : AccountTokenPurpose → ℕ
account_token_ttl email_verification = 24 * hour_ms
account_token_ttl password_reset = 1 * hour_ms

abbrev pub account_token_row : AccountTokenPurpose → ℕ → ℕ → String → ℕ → AccountToken
account_token_row purpose now id token_hash user_id = record {
  id = id;
  user_id = user_id;
  token_hash = token_hash;
  expires_at = now + account_token_ttl purpose;
  used_at = none;
  created_at = now;
}

abbrev pub used : ℕ → AccountToken → AccountToken
used now token = record token { used_at = some now }

-- `id, usedAt: null, expiresAt: { gt: now }`
abbrev pub is_usable : ℕ → ℕ → AccountToken → Bool
is_usable id now token = token.id == id && not (is_some token.used_at) && ltb now token.expires_at

-- `userId, usedAt: null`
abbrev pub is_unused_of : ℕ → AccountToken → Bool
is_unused_of user_id token = token.user_id == user_id && not (is_some token.used_at)

abbrev pub has_token_hash : String → AccountToken → Bool
has_token_hash token_hash token = str_eq token.token_hash token_hash

-- A token that `findValid` returns.
abbrev pub valid_at : ℕ → Option AccountToken → Option AccountToken
valid_at now none = none
valid_at now (some token) =
    if is_some token.used_at || leb token.expires_at now then none else some token

module _ {t : Tables} where
  -- accountTokensRepository.create
  unfoldable pub create_token : AccountTokenPurpose → AccountToken → Action t AccountToken
  create_token email_verification row db =
      stored (t.verification_token.create row db.verification_tokens)
        (λ rows. record db { verification_tokens = rows }) row db
  create_token password_reset row db =
      stored (t.password_reset_token.create row db.password_reset_tokens)
        (λ rows. record db { password_reset_tokens = rows }) row db

  unfoldable pub find_by_hash : AccountTokenPurpose → String → Action t (Option AccountToken)
  find_by_hash email_verification token_hash db =
      (ok (t.verification_token.find_first (has_token_hash token_hash) db.verification_tokens), db)
  find_by_hash password_reset token_hash db = (
    ok (t.password_reset_token.find_first (has_token_hash token_hash) db.password_reset_tokens),
    db,
  )

  unfoldable pub mark_used_if_usable : AccountTokenPurpose → ℕ → ℕ → Action t Bool
  mark_used_if_usable email_verification id now db = (
    ok (t.verification_token.count (is_usable id now) db.verification_tokens == 1),
    record db {
      verification_tokens =
          t.verification_token.update_many (is_usable id now) (used now) db.verification_tokens;
    },
  )
  mark_used_if_usable password_reset id now db = (
    ok (t.password_reset_token.count (is_usable id now) db.password_reset_tokens == 1),
    record db {
      password_reset_tokens =
          t.password_reset_token.update_many (is_usable id now) (used now) db.password_reset_tokens;
    },
  )

  unfoldable pub mark_all_unused_as_used : AccountTokenPurpose → ℕ → ℕ → Action t (Unit {0})
  mark_all_unused_as_used email_verification user_id now db = (
    ok tt,
    record db {
      verification_tokens =
          t.verification_token.update_many (is_unused_of user_id) (used now) db.verification_tokens;
    },
  )
  mark_all_unused_as_used password_reset user_id now db = (
    ok tt,
    record db {
      password_reset_tokens =
          t.password_reset_token.update_many (is_unused_of user_id) (used now)
            db.password_reset_tokens;
    },
  )

  -- accountTokensService.issue
  unfoldable pub issue : AccountTokenPurpose → ℕ → ℕ → String → ℕ → Action t AccountToken
  issue purpose now id token_hash user_id =
      create_token purpose (account_token_row purpose now id token_hash user_id)

  unfoldable pub find_valid : AccountTokenPurpose → ℕ → String → Action t (Option AccountToken)
  find_valid purpose now token_hash = do
    token ← find_by_hash purpose token_hash
    pure (valid_at now token)

  unfoldable pub consume_found : AccountTokenPurpose → ℕ → Option AccountToken → Action t (Option ℕ)
  consume_found purpose now none = pure none
  consume_found purpose now (some token) = do
    won ← mark_used_if_usable purpose token.id now
    pure (if won then some token.user_id else none)

  -- The user whose token it was, if this call is the one that used it.
  unfoldable pub consume : AccountTokenPurpose → ℕ → String → Action t (Option ℕ)
  consume purpose now token_hash = do
    token ← find_by_hash purpose token_hash
    consume_found purpose now token

  unfoldable pub invalidate_outstanding : AccountTokenPurpose → ℕ → ℕ → Action t (Unit {0})
  invalidate_outstanding purpose now user_id = mark_all_unused_as_used purpose user_id now

  -- usersRepository.updatePasswordHash and markEmailVerified
  unfoldable pub update_password_hash : ℕ → String → Action t User
  update_password_hash id password_hash db =
      changed (t.user.update id (λ user. record user { password_hash = password_hash }) db.users)
        (λ rows. record db { users = rows }) db

  unfoldable pub mark_email_verified : ℕ → ℕ → Action t (Unit {0})
  mark_email_verified id verified_at db = (
    ok tt,
    record db {
      users =
          t.user.update_many (λ user. user.id == id && not (is_some user.email_verified_at))
            (λ user. record user { email_verified_at = some verified_at }) db.users;
    },
  )
