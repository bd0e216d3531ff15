-- ===== src/Accounts/Verification.antt =====
-- The emails of apps/api/src/modules/email-verification/email-verification.service.ts, and their hourly
-- limit, which counts the tokens issued. What queueing the email comes to is an argument, as are the new
-- token's key and hash and the time.
use tasks_platform.Common.{
  ℕ, ◌+◌, ◌-◌, ◌/◌, ◌≤◌, ◌<◌, ◌≡◌, subst, String, Bool, true, false, ◌&&◌, some, arith, ◌==◌, leb,
  is_some, if◌then◌else◌,
}
use tasks_platform.Errors.{conflict, too_many_requests}
use tasks_platform.Database.Schema.{User, AccountToken}
use tasks_platform.Database.Client.{Tables, Db, Result, Action, ok, err, refuse, ◌>>=◌, ◌>>◌}
use tasks_platform.Database.Steps.{Ends, refuse-then}
use tasks_platform.Database.Outcomes.{OnOk, ok-then, stored-then, or_throw-Reads, forget_error}
use tasks_platform.Accounts.Tokens.{
  AccountTokenPurpose, email_verification, password_reset, account_token_row, create_token, issue,
  hour_ms,
}
use tasks_platform.Accounts.Users.{get_by_id, find_user, live_user}

-- `userId, createdAt: { gte: since }`
abbrev pub issued_since : ℕ → ℕ → AccountToken → Bool
issued_since user_id since token = token.user_id == user_id && leb since token.created_at

module _ {t : Tables} where
  -- accountTokensService.countIssuedSince
  unfoldable pub count_issued_since : AccountTokenPurpose → ℕ → ℕ → Action t ℕ
  count_issued_since email_verification user_id since db =
      (ok (t.verification_token.count (issued_since user_id since) db.verification_tokens), db)
  count_issued_since password_reset user_id since db =
      (ok (t.password_reset_token.count (issued_since user_id since) db.password_reset_tokens), db)

  unfoldable pub send_verification_email :
      Result (Unit {0}) → ℕ → ℕ → String → User → Action t (Unit {0})
  send_verification_email queued now id token_hash user = do
    issue email_verification now id token_hash user.id
    λ db. (queued, db)

  unfoldable pub resend : ℕ → Result (Unit {0}) → ℕ → ℕ → String → ℕ → Action t (Unit {0})
  resend max_per_hour queued now id token_hash user_id = do
    user ← get_by_id user_id
    refuse (is_some user.email_verified_at) (conflict (some "Email is already verified"))
    issued_in_window ← count_issued_since email_verification user.id (now - hour_ms)
    refuse (leb max_per_hour issued_in_window) (
        too_many_requests (hour_ms / 1000)
          (some "Too many verification emails requested, try again later"))
    send_verification_email queued now id token_hash user

one_more :
    (after before limit : ℕ) (b : Bool)
    → after ≡ before + (if b then 1 else 0)
    → before < limit
    → after ≤ limit
one_more after before limit true e below = omega arith
one_more after before limit false e below = omega arith

module _ (t : Tables) where
  -- How many verification tokens the user was issued in the hour before a time.
  abbrev pub issued_in_hour : ℕ → ℕ → Db t → ℕ
  issued_in_hour user_id now db =
      t.verification_token.count (issued_since user_id (now - hour_ms)) db.verification_tokens

  get_by_id-Known :
      (user_id : ℕ) (db : Db t)
      → Ends (OnOk (λ user after. (user.id ≡ user_id) × (after ≡ db))) (get_by_id user_id db)
  unfolding get_by_id find_user
  get_by_id-Known user_id db =
      forget_error _ (or_throw-Reads db (t.user.find_first (live_user user_id) db.users) _)
        λ user after (same, found).
          let (meets, _) = t.user.find_first-some (live_user user_id) db.users user found in
          (ground arith, same)

  queue_end :
      (queued : Result (Unit {0})) (user_id now max_per_hour : ℕ) (db : Db t)
      → issued_in_hour user_id now db ≤ max_per_hour
      → Ends (OnOk (λ _ after. issued_in_hour user_id now after ≤ max_per_hour)) (queued, db)
  queue_end (ok done) user_id now max_per_hour db within = record { holds = within }
  queue_end (err e) user_id now max_per_hour db within = record { holds = tt }

  sent_within :
      (max_per_hour : ℕ) (queued : Result (Unit {0})) (now id : ℕ) (token_hash : String)
      (user : User) (db : Db t)
      → issued_in_hour user.id now db < max_per_hour
      → Ends
          (OnOk (λ _ after. issued_in_hour user.id now after ≤ max_per_hour))
          (send_verification_email queued now id token_hash user db)
  unfolding send_verification_email issue create_token
  sent_within max_per_hour queued now id token_hash user db below =
      stored-then db _ _ _ _ (λ _. record { holds = tt })
        λ rows created.
          let new = account_token_row email_verification now id token_hash user.id in
          let counted =
            t.verification_token.count-create (issued_since user.id (now - hour_ms)) new
              db.verification_tokens rows created in
          queue_end queued user.id now max_per_hour (record db { verification_tokens = rows })
            (one_more _ _ _ _ counted below)

  -- After an email was sent again, no more tokens have been issued to the user within the hour than the
  -- limit allows.
  resend_limited :
      (max_per_hour : ℕ) (queued : Result (Unit {0})) (now id : ℕ) (token_hash : String)
      (user_id : ℕ) (db : Db t)
      → Ends
          (OnOk (λ _ after. issued_in_hour user_id now after ≤ max_per_hour))
          (resend max_per_hour queued now id token_hash user_id db)
  unfolding resend count_issued_since
  resend_limited max_per_hour queued now id token_hash user_id db =
      ok-then _ _ (get_by_id-Known user_id db) λ user middle (its, same).
        refuse-then middle _ _ _ (λ _. record { holds = tt })
          λ _.
            refuse-then middle (leb max_per_hour (issued_in_hour user.id now middle)) _ _
              (λ _. record { holds = tt })
              λ below.
                subst
                  (λ i.
                    Ends {B = Unit {0}}
                      (OnOk (λ _ after. issued_in_hour i now after ≤ max_per_hour))
                      (send_verification_email queued now id token_hash user middle))
                  its (sent_within max_per_hour queued now id token_hash user middle (ground arith))
