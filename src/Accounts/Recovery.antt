-- ===== src/Accounts/Recovery.antt =====
-- apps/api/src/modules/password-reset/password-reset.service.ts and the `verify` of
-- apps/api/src/modules/email-verification/email-verification.service.ts. The new password's hash is an
-- argument.
pub mod Reset
use tasks_platform.Common.{ℕ, String, Option, some}
use tasks_platform.Errors.{not_found}
use tasks_platform.Database.Client.{Db, Prisma, Action, pure, or_throw, ◌>>=◌, ◌>>◌}
use tasks_platform.Accounts.Sessions.{revoke_all_sessions}
use tasks_platform.Accounts.Tokens.{
  email_verification, password_reset, find_valid, consume, invalidate_outstanding,
  update_password_hash, mark_email_verified,
}

module _ (prisma : Prisma) where
  -- The block of the transaction in `resetPassword`.
  unfoldable pub reset_block : ℕ → String → String → Action prisma.tables (Unit {0})
  reset_block now token_hash password_hash = do
    consumed ← consume password_reset now token_hash
    user_id ← or_throw consumed (not_found (some "Invalid or expired password reset token"))
    update_password_hash user_id password_hash
    invalidate_outstanding password_reset now user_id
    revoke_all_sessions prisma now user_id

  -- `now` is the time of the check, `later` that of the transaction.
  unfoldable pub reset_password : ℕ → ℕ → String → String → Action prisma.tables (Unit {0})
  reset_password now later token_hash password_hash = do
    valid ← find_valid password_reset now token_hash
    or_throw valid (not_found (some "Invalid or expired password reset token"))
    prisma.transaction (Unit {0}) (reset_block later token_hash password_hash)

  -- The block of the transaction in `verify`.
  unfoldable pub verify_block : ℕ → String → Action prisma.tables (Unit {0})
  verify_block now token_hash = do
    consumed ← consume email_verification now token_hash
    user_id ← or_throw consumed (not_found (some "Invalid or expired verification token"))
    mark_email_verified user_id now
    invalidate_outstanding email_verification now user_id

  unfoldable pub verify : ℕ → String → Action prisma.tables (Unit {0})
  verify now token_hash = prisma.transaction (Unit {0}) (verify_block now token_hash)
