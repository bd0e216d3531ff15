-- ===== src/Accounts/Rotation.antt =====
-- The rotation of refresh tokens: one use for each, at most one live token in a family, and what
-- becomes of a family when a token is used again.
use tasks_platform.Common.{
  ℕ, ◌≤◌, ◌≡◌, ◌≢◌, ◌↔◌, ◌⊎◌, inl, inr, refl, ap, String, Bool, true, false, not, Option, none,
  some, arith, ◌==◌, str_eq, is_some, if◌then◌else◌, map_option, Option-cases,
}
use tasks_platform.Errors.{app, unauthorized}
use tasks_platform.Database.Table.{updated-some}
use tasks_platform.Database.Schema.{RefreshToken}
use tasks_platform.Database.Client.{Tables, Db, Prisma, Result, Action, ok, err, or_throw, continue}
use tasks_platform.Database.Steps.{Ends, or_throw-then, refuse-then}
use tasks_platform.Database.Outcomes.{OnOk, Atomic, atomically, stored-then, changed-then}
use tasks_platform.Accounts.Sessions
use tasks_platform.Accounts.Sessions.{
  NewToken, RequestMeta, token_row, revoked, replaced, live_of_family, create_refresh_token,
  find_refresh_token_by_hash, revoke_and_replace, revoke_family,
}

abbrev pub has_hash : String → RefreshToken → Bool
has_hash token_hash token = str_eq token.token_hash token_hash

abbrev pub live : RefreshToken → Bool
live token = not (is_some token.revoked_at)

module _ (t : Tables) where
  -- The rows after a family was ended.
  abbrev pub ended_rows : ℕ → ℕ → t.refresh_token.Rows → t.refresh_token.Rows
  ended_rows now family_id rows =
      t.refresh_token.update_many (live_of_family family_id) (revoked now) rows

  -- No token of the family is live, and every token of another is as it was.
  abbrev pub FamilyEnded : ℕ → t.refresh_token.Rows → t.refresh_token.Rows → Type 0
  FamilyEnded family_id before after =
      ((k : ℕ) (token : RefreshToken)
        → t.refresh_token.get k after ≡ some token
        → token.family_id ≡ family_id
        → live token ≡ false)
      × ((k : ℕ) (token : RefreshToken)
          → token.family_id ≢ family_id
          → (t.refresh_token.get k before ≡ some token)
            ↔ (t.refresh_token.get k after ≡ some token))

  pub ended_rows-FamilyEnded :
      (now family_id : ℕ) (rows : t.refresh_token.Rows)
      → FamilyEnded family_id rows (ended_rows now family_id rows)
  ended_rows-FamilyEnded now family_id rows =
      let row : (k : ℕ)
          → t.refresh_token.get k (ended_rows now family_id rows)
            ≡ map_option (λ r. if live_of_family family_id r then revoked now r else r)
                (t.refresh_token.get k rows) =
        λ k.
          t.refresh_token.get-update_many (live_of_family family_id) (revoked now) (λ r. refl)
            (λ r x h. h) rows k in
      (
        λ k token here of_it. elim (Option-cases (t.refresh_token.get k rows)) [
          | inl absent ↦ absurd (ground (arith, row k))
          | inr (r, there) ↦ ground (arith, row k)
        ],
        λ k token other. ground (arith, row k),
      )

module _ (prisma : Prisma) where
  open prisma use {tables}

  -- What a refresh that goes through has done: the token presented was stored, live and not expired; a
  -- new one of its user and family is stored; and the old one is revoked and says what replaced it.
  abbrev pub Rotated :
      ℕ → NewToken → String → RequestMeta → Db tables → RefreshToken → Db tables → Type 0
  Rotated now new token_hash meta db session after =
      (token : RefreshToken) × (rows : tables.refresh_token.Rows) × (tables.refresh_token.find_first
          (has_hash token_hash) db.refresh_tokens
        ≡ some token)
      × (live token ≡ true)
      × (now ≤ token.expires_at)
      × (session ≡ token_row now new token.user_id token.family_id meta)
      × (tables.refresh_token.create session db.refresh_tokens ≡ some rows)
      × (after ≡ record db {
        refresh_tokens =
            tables.refresh_token.update_many (λ r. r.id == token.id) (replaced now session.id) rows;
      })

  -- What a refresh that is refused has done: nothing, unless the token had been revoked, whose family
  -- is then ended.
  abbrev pub Refused : String → Db tables → Db tables → Type 0
  Refused token_hash db after =
      (after ≡ db)
      ⊎ ((token : RefreshToken) × (tables.refresh_token.find_first (has_hash token_hash)
              db.refresh_tokens
            ≡ some token)
          × (live token ≡ false)
          × FamilyEnded tables token.family_id db.refresh_tokens after.refresh_tokens)

  abbrev pub Refreshed :
      ℕ → NewToken → String → RequestMeta → Db tables → Result RefreshToken × Db tables → Type 0
  Refreshed now new token_hash meta db (ok session, after) =
      Rotated now new token_hash meta db session after
  Refreshed now new token_hash meta db (err e, after) = Refused token_hash db after

  rotate-Written :
      (now : ℕ) (new : NewToken) (token : RefreshToken) (meta : RequestMeta) (db : Db tables)
      → Ends
          (OnOk (λ session after.
            (rows : tables.refresh_token.Rows) × (session
              ≡ token_row now new token.user_id token.family_id meta)
            × (tables.refresh_token.create session db.refresh_tokens ≡ some rows)
            × (after ≡ record db {
              refresh_tokens =
                  tables.refresh_token.update_many
                    (λ r. r.id == token.id)
                    (replaced now session.id)
                    rows;
            })))
          (Sessions.rotate prisma now new token meta db)
  unfolding Sessions.rotate Sessions.issue_session create_refresh_token revoke_and_replace
  rotate-Written now new token meta db =
      let session = token_row now new token.user_id token.family_id meta in
      stored-then db _ _ _ _ (λ _. record { holds = tt })
        λ rows created.
          changed-then (record db { refresh_tokens = rows }) _ _ _ (λ _. record { holds = tt })
            λ old rows2 e.
              let (row, there, is, same) =
                updated-some tables.refresh_token token.id (replaced now session.id) rows
                  ((λ r. refl), λ r x h. h) e in
              record {
                holds = (rows, refl, created, ap (λ r. record db { refresh_tokens = r }) same);
              }

  detect_reuse-then :
      {B : Type 0} {Q : Result B × Db tables → Type 0} (now family_id : ℕ) (revoked_at : Option ℕ)
      (db : Db tables) (rest : Unit {0} → Action tables B)
      → ((at : ℕ)
          → revoked_at ≡ some at
          → Ends Q (
            err (app (unauthorized (some "Invalid refresh token"))),
            record db { refresh_tokens = ended_rows tables now family_id db.refresh_tokens },
          ))
      → (revoked_at ≡ none → Ends Q (rest tt db))
      → Ends Q (continue (Sessions.detect_reuse prisma now family_id revoked_at db) rest)
  unfolding Sessions.detect_reuse revoke_family
  detect_reuse-then now family_id none db rest reused fresh = fresh refl
  detect_reuse-then now family_id (some at) db rest reused fresh = reused at refl

  refreshed :
      (now : ℕ) (new : NewToken) (token_hash : String) (meta : RequestMeta) (db : Db tables)
      (token : RefreshToken)
      → tables.refresh_token.find_first (has_hash token_hash) db.refresh_tokens ≡ some token
      → live token ≡ true
      → now ≤ token.expires_at
      → (r : Result RefreshToken × Db tables)
      → Ends
          (Atomic db (λ session after.
            (rows : tables.refresh_token.Rows) × (session
              ≡ token_row now new token.user_id token.family_id meta)
            × (tables.refresh_token.create session db.refresh_tokens ≡ some rows)
            × (after ≡ record db {
              refresh_tokens =
                  tables.refresh_token.update_many
                    (λ r. r.id == token.id)
                    (replaced now session.id)
                    rows;
            })))
          r
      → Ends (Refreshed now new token_hash meta db) r
  refreshed now new token_hash meta db token found is_live in_time (ok session, after) known =
      let (rows, is, created, same) = known.holds in
      record { holds = (token, rows, found, is_live, in_time, is, created, same) }
  refreshed now new token_hash meta db token found is_live in_time (err e, after) known = record {
    holds = inl known.holds;
  }

  -- A refresh that goes through has found the token stored, live and in time, has stored a new one of its
  -- user and family, and has revoked the one presented. One that is refused has written nothing, or the token had been
  -- revoked and every live token of its family is revoked, those of other families being as they were.
  pub refresh-Refreshed :
      (now : ℕ) (new : NewToken) (token_hash : String) (meta : RequestMeta) (db : Db tables)
      → Ends
          (Refreshed now new token_hash meta db)
          (Sessions.refresh prisma now new token_hash meta db)
  unfolding Sessions.refresh find_refresh_token_by_hash
  refresh-Refreshed now new token_hash meta db =
      or_throw-then db _ _ _ (λ _. record { holds = inl refl })
        λ token found.
          detect_reuse-then now token.family_id token.revoked_at db _
            (λ at was. record {
              holds = inr (
                token,
                found,
                ground arith,
                ended_rows-FamilyEnded tables now token.family_id db.refresh_tokens,
              );
            })
            λ is_live.
              refuse-then db _ _ _ (λ _. record { holds = inl refl })
                λ in_time.
                  refreshed now new token_hash meta db token found (ground arith) (ground arith) _
                    (atomically prisma db _ (rotate-Written now new token meta db))

  -- A known token that was revoked: the family is ended.
  pub refresh_revoked :
      (now : ℕ) (new : NewToken) (token_hash : String) (meta : RequestMeta) (db : Db tables)
      {token : RefreshToken}
      → tables.refresh_token.find_first (has_hash token_hash) db.refresh_tokens ≡ some token
      → live token ≡ false
      → Sessions.refresh prisma now new token_hash meta db ≡ (
        err (app (unauthorized (some "Invalid refresh token"))),
        record db { refresh_tokens = ended_rows tables now token.family_id db.refresh_tokens },
      )
  unfolding Sessions.refresh find_refresh_token_by_hash Sessions.detect_reuse revoke_family or_throw
  refresh_revoked now new token_hash meta db {token} found dead =
      elim (Option-cases token.revoked_at) [
        | inl never ↦ absurd (cc)
        | inr (at, was) ↦ rw (found, was) refl
      ]
