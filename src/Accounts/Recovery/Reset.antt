-- ===== src/Accounts/Recovery/Reset.antt =====
-- What a password reset needs and what it leaves behind.
use tasks_platform.Common.{
  ℕ, ◌<◌, ◌≡◌, inl, inr, refl, sym, ap, subst, ◌∙◌, String, true, none, some, arith, ◌==◌, is_some,
  Option-cases, Bool-cases,
}
use tasks_platform.Database.Table.{get-updated, updated-some}
use tasks_platform.Database.Schema.{User, RefreshToken, AccountToken}
use tasks_platform.Database.Client.{Tables, Db, Prisma}
use tasks_platform.Database.Steps.{Ends, or_throw-then}
use tasks_platform.Database.Outcomes.{OnOk, Atomic, refused, atomically, ok-then, changed-then}
use tasks_platform.Accounts.Sessions.{
  live_of_user, revoked, revoke_all_for_user, revoke_all_sessions,
}
use tasks_platform.Accounts.Tokens.{
  password_reset, used, is_usable, is_unused_of, has_token_hash, find_valid, find_by_hash, consume,
  consume_found, mark_used_if_usable, invalidate_outstanding, mark_all_unused_as_used,
  update_password_hash,
}
use tasks_platform.Accounts.Recovery.{reset_block, reset_password}

module _ (t : Tables) where
  -- A reset token that is stored, not used and not expired.
  abbrev pub Usable : ℕ → String → Db t → AccountToken → Type 0
  Usable now token_hash db token =
      (t.password_reset_token.find_first (has_token_hash token_hash) db.password_reset_tokens
        ≡ some token)
      × (token.used_at ≡ none)
      × (now < token.expires_at)

  -- The rows after a token was used.
  abbrev pub used_rows : ℕ → ℕ → t.password_reset_token.Rows → t.password_reset_token.Rows
  used_rows id now rows = t.password_reset_token.update_many (is_usable id now) (used now) rows

  won-Usable :
      (now : ℕ) (token_hash : String) (db : Db t) (token : AccountToken)
      → t.password_reset_token.find_first (has_token_hash token_hash) db.password_reset_tokens
        ≡ some token
      → (t.password_reset_token.count (is_usable token.id now) db.password_reset_tokens == 1) ≡ true
      → Usable now token_hash db token
  won-Usable now token_hash db token found won =
      let (_, there) =
        t.password_reset_token.find_first-some (has_token_hash token_hash) db.password_reset_tokens
          token found in
      elim (Option-cases
        (t.password_reset_token.find_first (is_usable token.id now) db.password_reset_tokens)) [
          | inl absent ↦ absurd (
              ground (
                arith,
                t.password_reset_token.count-none (is_usable token.id now) db.password_reset_tokens
                    absent,
              ))
          | inr (row, usable) ↦
              let (meets, here) =
                t.password_reset_token.find_first-some (is_usable token.id now)
                  db.password_reset_tokens row usable in
              let same : row ≡ token = ground (
                arith,
                ap (λ i. t.password_reset_token.get i db.password_reset_tokens) {x = row.id}
                    {y = token.id},
              ) in
              let fits : is_usable token.id now token ≡ true =
                subst (λ r. is_usable token.id now r ≡ true) same meets in
              (found, ground arith, ground arith)
        ]

  consume-Usable :
      (now : ℕ) (token_hash : String) (db : Db t)
      → Ends
          (OnOk (λ consumed after.
            (user_id : ℕ)
            → consumed ≡ some user_id
            → (token : AccountToken) × Usable now token_hash db token
              × (token.user_id ≡ user_id)
              × (after ≡ record db {
                password_reset_tokens = used_rows token.id now db.password_reset_tokens;
              })))
          (consume password_reset now token_hash db)
  unfolding consume find_by_hash consume_found mark_used_if_usable
  consume-Usable now token_hash db =
      elim (Option-cases
        (t.password_reset_token.find_first (has_token_hash token_hash) db.password_reset_tokens)) [
          | inl absent ↦ rw absent (record { holds = λ user_id e. absurd (cc) })
          | inr (token, found) ↦
              elim (Bool-cases (
                t.password_reset_token.count (is_usable token.id now) db.password_reset_tokens
                == 1)) [
                  | inl won ↦
                      rw (found, won)
                        (record {
                          holds = λ user_id e. (
                            token,
                            (
                              refl,
                              (won-Usable now token_hash db token found won).1,
                              (won-Usable now token_hash db token found won).2,
                            ),
                            ground arith,
                            refl,
                          );
                        })
                  | inr lost ↦ rw (found, lost) (record { holds = λ user_id e. absurd (cc) })
                ]
        ]

  -- No reset token of the user can be used any more, and no session of the user is live.
  abbrev pub SignedOut : ℕ → Db t → Type 0
  SignedOut user_id db =
      ((k : ℕ) (token : AccountToken)
        → t.password_reset_token.get k db.password_reset_tokens ≡ some token
        → token.user_id ≡ user_id
        → is_some token.used_at ≡ true)
      × ((k : ℕ) (token : RefreshToken)
          → t.refresh_token.get k db.refresh_tokens ≡ some token
          → token.user_id ≡ user_id
          → is_some token.revoked_at ≡ true)

  burned :
      (user_id now : ℕ) (rows : t.password_reset_token.Rows) (k : ℕ) (token : AccountToken)
      → t.password_reset_token.get k
          (t.password_reset_token.update_many (is_unused_of user_id) (used now) rows)
        ≡ some token
      → token.user_id ≡ user_id
      → is_some token.used_at ≡ true
  burned user_id now rows k token here its =
      let row =
        t.password_reset_token.get-update_many (is_unused_of user_id) (used now) (λ r. refl)
          (λ r x h. h) rows k in
      elim (Option-cases (t.password_reset_token.get k rows)) [
        | inl absent ↦ absurd (ground (arith, row))
        | inr (r, there) ↦ ground (arith, row)
      ]

  signed_out :
      (user_id now : ℕ) (rows : t.refresh_token.Rows) (k : ℕ) (token : RefreshToken)
      → t.refresh_token.get k
          (t.refresh_token.update_many (live_of_user user_id none) (revoked now) rows)
        ≡ some token
      → token.user_id ≡ user_id
      → is_some token.revoked_at ≡ true
  signed_out user_id now rows k token here its =
      let row =
        t.refresh_token.get-update_many (live_of_user user_id none) (revoked now) (λ r. refl)
          (λ r x h. h) rows k in
      elim (Option-cases (t.refresh_token.get k rows)) [
        | inl absent ↦ absurd (ground (arith, row))
        | inr (r, there) ↦ ground (arith, row)
      ]

  -- What a reset that goes through has done.
  abbrev pub Reset : ℕ → String → String → Db t → Db t → Type 0
  Reset now token_hash password_hash db after =
      (token : AccountToken) × (user : User) × Usable now token_hash db token
      × (t.user.get token.user_id db.users ≡ some user)
      × (t.user.get token.user_id after.users
          ≡ some (record user { password_hash = password_hash }))
      × SignedOut token.user_id after

module _ (prisma : Prisma) where
  open prisma use {tables}

  reset_block-Reset :
      (now : ℕ) (token_hash password_hash : String) (db : Db tables)
      → Ends
          (OnOk (λ _ after. Reset tables now token_hash password_hash db after))
          (reset_block prisma now token_hash password_hash db)
  unfolding reset_block update_password_hash invalidate_outstanding mark_all_unused_as_used
      revoke_all_sessions revoke_all_for_user
  reset_block-Reset now token_hash password_hash db =
      ok-then _ _ (consume-Usable tables now token_hash db) λ consumed middle known.
        or_throw-then middle consumed _ _ (λ _. record { holds = tt })
          λ user_id some_one.
            changed-then middle _ _ _ (λ _. record { holds = tt })
              λ user rows e.
                let (token, usable, its, is) = known user_id some_one in
                let (row, there, _, same) =
                  updated-some tables.user user_id (λ u. record u { password_hash = password_hash })
                    middle.users ((λ r. refl), λ r x h. h) e in
                let there_now : tables.user.get user_id rows
                    ≡ some (record row { password_hash = password_hash }) =
                  subst
                    (λ r.
                      tables.user.get user_id r
                      ≡ some (record row { password_hash = password_hash }))
                    (sym same)
                    (ground (
                      arith,
                      get-updated tables.user user_id user_id
                          (λ u. record u { password_hash = password_hash }) middle.users
                          ((λ r. refl), λ r x h. h),
                    )) in
                record {
                  holds = (
                    token,
                    row,
                    usable,
                    subst (λ i. tables.user.get i db.users ≡ some row) (sym its)
                        (subst (λ d. tables.user.get user_id d.users ≡ some row) is there),
                    subst
                        (λ i.
                          tables.user.get i rows
                          ≡ some (record row { password_hash = password_hash }))
                        (sym its) there_now,
                    (
                      λ k x here of.
                          burned tables user_id now middle.password_reset_tokens k x here
                            (of ∙ its),
                      λ k x here of.
                          signed_out tables user_id now middle.refresh_tokens k x here (of ∙ its),
                    ),
                  );
                }

  -- A reset writes nothing, or: its token was stored, unused and in time when the transaction took it,
  -- its user has the new password, and no reset token and no session of that user is good any more.
  pub reset_password-Reset :
      (now later : ℕ) (token_hash password_hash : String) (db : Db tables)
      → Ends
          (Atomic db (λ _ after. Reset tables later token_hash password_hash db after))
          (reset_password prisma now later token_hash password_hash db)
  unfolding reset_password find_valid find_by_hash
  reset_password-Reset now later token_hash password_hash db =
      or_throw-then db _ _ _ (λ _. refused)
        λ token found. atomically prisma db _ (reset_block-Reset later token_hash password_hash db)
