-- ===== src/Worker/ResetRequest.antt =====
-- apps/worker/src/services/password-reset.service.ts, with usersRepository of the worker: what becomes of a request
-- to reset a password. What queueing the email comes to is an argument, as are the new token's key and hash and
-- the time.
use tasks_platform.Common.{
  ℕ, ◌+◌, ◌-◌, ◌≤◌, ◌<◌, ◌≡◌, ◌⊎◌, inl, inr, refl, sym, ap, ◌∙◌, subst, String, Bool, true, ◌&&◌,
  not, Option, none, some, arith, leb, str_eq, is_some, Bool-cases, if◌then◌else◌,
}
use tasks_platform.Database.Table.{created-new}
use tasks_platform.Database.Schema.{User}
use tasks_platform.Database.Client.{
  Tables, Db, Result, ok, err, prisma_error, Action, pure, ◌>>=◌, ◌>>◌,
}
use tasks_platform.Database.Steps.{Ends}
use tasks_platform.Database.Outcomes.{stored-then}
use tasks_platform.Accounts.Tokens.{password_reset, account_token_row, issue, create_token, hour_ms}
use tasks_platform.Accounts.Verification.{count_issued_since, issued_since}

pub data PasswordResetRequestOutcome : Type 0 where
  email_queued no_account limit_reached : PasswordResetRequestOutcome

-- `{ email, deletedAt: null }`
abbrev pub active_with_email : String → User → Bool
active_with_email email user = str_eq user.email email && not (is_some user.deleted_at)

module _ {t : Tables} where
  unfoldable pub find_active_by_email : String → Action t (Option User)
  find_active_by_email email db = (ok (t.user.find_first (active_with_email email) db.users), db)

  -- The issue of a token and the email with it.
  unfoldable pub send_reset_email :
      Result (Unit {0}) → ℕ → ℕ → String → User → Action t PasswordResetRequestOutcome
  send_reset_email queued now id token_hash user = do
    issue password_reset now id token_hash user.id
    λ (db : Db t). (queued, db)
    pure email_queued

  -- From the look-up of the account on.
  unfoldable pub handle_account :
      ℕ → Result (Unit {0}) → ℕ → ℕ → String → Option User → Action t PasswordResetRequestOutcome
  unfolding send_reset_email count_issued_since
  handle_account max_per_hour queued now id token_hash none = pure no_account
  handle_account max_per_hour queued now id token_hash (some user) = do
    issued_in_window ← count_issued_since password_reset user.id (now - hour_ms)
    if leb max_per_hour issued_in_window
        then pure limit_reached
        else send_reset_email queued now id token_hash user

  unfoldable pub handle_password_reset_request :
      ℕ → Result (Unit {0}) → ℕ → ℕ → String → String → Action t PasswordResetRequestOutcome
  unfolding handle_account find_active_by_email
  handle_password_reset_request max_per_hour queued now id token_hash email = do
    user ← find_active_by_email email
    handle_account max_per_hour queued now id token_hash user

module _ (t : Tables) (max_per_hour : ℕ) (queued : Result (Unit {0})) (now id : ℕ)
    (token_hash email : String) (db : Db t) where
  -- How many tokens a user was issued in the hour before the request.
  abbrev pub reset_tokens : ℕ → Db t → ℕ
  reset_tokens user_id d =
      t.password_reset_token.count (issued_since user_id (now - hour_ms)) d.password_reset_tokens

  -- The outcome where the email was or was not queued.
  abbrev pub told : Result (Unit {0}) → Result PasswordResetRequestOutcome
  told (ok done) = ok email_queued
  told (err e) = err e

  -- No account; or the limit was reached; or the token was refused by the database; or there is one token more.
  abbrev pub Handled : Result PasswordResetRequestOutcome × Db t → Type 0
  Handled (result, after) =
      ((t.user.find_first (active_with_email email) db.users ≡ none)
        × (result ≡ ok no_account)
        × (after ≡ db))
      ⊎ ((user : User) × (t.user.find_first (active_with_email email) db.users ≡ some user)
          × (((max_per_hour ≤ reset_tokens user.id db) × (result ≡ ok limit_reached) × (after ≡ db))
              ⊎ (((result ≡ err prisma_error) × (after ≡ db))
                  ⊎ ((reset_tokens user.id after ≡ reset_tokens user.id db + 1)
                      × (reset_tokens user.id after ≤ max_per_hour)
                      × (t.password_reset_token.get id after.password_reset_tokens
                          ≡ some (account_token_row password_reset now id token_hash user.id))
                      × (result ≡ told queued)))))

  email_end :
      (r : Result (Unit {0})) (d : Db t)
      → ((λ (s : Db t). (r, s)) >> pure email_queued) d ≡ (told r, d)
  email_end (ok done) d = refl
  email_end (err e) d = refl

  sent :
      (user : User)
      → t.user.find_first (active_with_email email) db.users ≡ some user
      → reset_tokens user.id db < max_per_hour
      → Ends Handled (send_reset_email queued now id token_hash user db)
  unfolding send_reset_email issue create_token
  sent user found below =
      let new = account_token_row password_reset now id token_hash user.id in
      stored-then db _ _ _ _ (λ _. record { holds = inr (user, found, inr (inl (refl, refl))) })
        λ rows made.
          let fresh : issued_since user.id (now - hour_ms) new ≡ true = ground arith in
          let counted : t.password_reset_token.count (issued_since user.id (now - hour_ms)) rows
              ≡ reset_tokens user.id db + 1 =
            t.password_reset_token.count-create (issued_since user.id (now - hour_ms)) new
              db.password_reset_tokens rows made
            ∙ ap (λ b. reset_tokens user.id db + (if b then 1 else 0)) fresh in
          subst (Ends Handled) (sym (email_end queued (record db { password_reset_tokens = rows })))
            (record {
              holds = inr (
                user,
                found,
                inr (
                    inr (
                      counted,
                      omega (arith, counted, below),
                      created-new t.password_reset_token new db.password_reset_tokens rows made,
                      refl,
                    )),
              );
            })

  account :
      (o : Option User)
      → t.user.find_first (active_with_email email) db.users ≡ o
      → Ends Handled (handle_account max_per_hour queued now id token_hash o db)
  unfolding handle_account count_issued_since
  account none absent = record { holds = inl (absent, refl, refl) }
  account (some user) found = elim (Bool-cases (leb max_per_hour (reset_tokens user.id db))) [
    | inl reached ↦
        rw reached (record { holds = inr (user, found, inl (ground arith, refl, refl)) })
    | inr below ↦ rw below (sent user found (ground arith))
  ]

  -- A request for an address with no active account changes nothing; for one whose account was issued as many
  -- tokens in the last hour as the limit allows it changes nothing either; and otherwise there is one more
  -- token of the account, which does not exceed the limit and can be used, unless the database refused it.
  pub handle_password_reset_request-Handled :
      Ends Handled (handle_password_reset_request max_per_hour queued now id token_hash email db)
  unfolding handle_password_reset_request find_active_by_email
  handle_password_reset_request-Handled =
      account (t.user.find_first (active_with_email email) db.users) refl
