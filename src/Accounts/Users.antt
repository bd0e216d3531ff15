-- ===== src/Accounts/Users.antt =====
-- apps/api/src/modules/users (users.service.ts, users.repository.ts) and the login of
-- apps/api/src/modules/auth/auth.service.ts. Whether a password fits a hash, which argon2 decides, is a
-- parameter; a new password's hash is an argument.
use tasks_platform.Common.{
  ℕ, ◌≡◌, refl, ap, subst, String, Bool, true, ◌&&◌, not, Option, none, some, ◌==◌, str_eq, is_some,
}
use tasks_platform.Errors.{not_found, unauthorized}
use tasks_platform.Database.Table.{updated-some}
use tasks_platform.Database.Schema.{User, RefreshToken}
use tasks_platform.Database.Client.{
  Tables, Db, Prisma, Action, ok, ensure, or_throw, changed, ◌>>=◌, ◌>>◌,
}
use tasks_platform.Database.Steps.{Ends, or_throw-then, ensure-then}
use tasks_platform.Database.Outcomes.{
  Atomic, Reads, refused, known-then, or_throw-Reads, changed_last, stored_last,
}
use tasks_platform.Accounts.Sessions.{
  NewToken, RequestMeta, token_row, create_refresh_token, issue_session,
}
use tasks_platform.Accounts.Tokens.{update_password_hash}

-- `where: { id, deletedAt: null }`
abbrev pub live_user : ℕ → User → Bool
live_user id user = user.id == id && not (is_some user.deleted_at)

abbrev pub named : String → User → User
named name user = record user { name = name }

-- The hash that a login is checked against, that of no password if there is no such user.
abbrev pub hash_to_check : String → Option User → String
hash_to_check dummy_password_hash none = dummy_password_hash
hash_to_check dummy_password_hash (some user) = user.password_hash

module _ {t : Tables} where
  unfoldable pub find_by_email : String → Action t (Option User)
  find_by_email email db = (ok (t.user.find_first (λ user. str_eq user.email email) db.users), db)

  unfoldable pub find_user : ℕ → Action t (Option User)
  find_user id db = (ok (t.user.find_first (live_user id) db.users), db)

  unfoldable pub update_user_name : ℕ → String → Action t User
  update_user_name id name db =
      changed (t.user.update id (named name) db.users) (λ rows. record db { users = rows }) db

  unfoldable pub get_by_id : ℕ → Action t User
  get_by_id id = do user ← find_user id; or_throw user (not_found (some "User not found"))

module _ (prisma : Prisma) (verify_password : String → String → Bool) where
  open prisma use {tables}

  unfoldable pub change_password : ℕ → String → String → Action tables User
  change_password id current_password password_hash = do
    user ← get_by_id id
    ensure (verify_password user.password_hash current_password)
        (unauthorized (some "Current password is incorrect"))
    update_password_hash id password_hash

  unfoldable pub login :
      String → ℕ → NewToken → ℕ → String → String → RequestMeta → Action tables RefreshToken
  login dummy_password_hash now new family_id email password meta = do
    found ← find_by_email email
    let is_password_valid = verify_password (hash_to_check dummy_password_hash found) password in
        do
          user ← or_throw found (unauthorized (some "Invalid email or password"))
          ensure is_password_valid (unauthorized (some "Invalid email or password"))
          issue_session prisma now new user.id family_id meta

  get_by_id-Reads :
      (id : ℕ) (db : Db tables)
      → Ends
          (Reads db (λ user. tables.user.find_first (live_user id) db.users ≡ some user))
          (get_by_id id db)
  unfolding get_by_id find_user
  get_by_id-Reads id db = or_throw-Reads db _ _

  -- A change of password writes nothing, or: the current one was right for a user who is not deleted, and
  -- just the hash of that user's row is another.
  change_password-Changed :
      (id : ℕ) (current_password password_hash : String) (db : Db tables)
      → Ends
          (Atomic db (λ user after.
            (seen : User) × (row : User) × (tables.user.find_first (live_user id) db.users
              ≡ some seen)
            × (verify_password seen.password_hash current_password ≡ true)
            × (tables.user.get id db.users ≡ some row)
            × (user ≡ record row { password_hash = password_hash })
            × (after ≡ record db {
              users =
                  tables.user.update_many
                    (λ u. u.id == id)
                    (λ u. record u { password_hash = password_hash })
                    db.users;
            })))
          (change_password id current_password password_hash db)
  unfolding change_password update_password_hash
  change_password-Changed id current_password password_hash db =
      known-then _ _ (get_by_id-Reads id db) (λ _. refused)
        λ seen found.
          ensure-then db _ _ _ (λ _. refused)
            λ right.
              changed_last db _ _ (λ _. refused)
                λ user rows e.
                  let (row, there, is, same) =
                    updated-some tables.user id (λ u. record u { password_hash = password_hash })
                      db.users ((λ r. refl), λ r x h. h) e in
                  record {
                    holds = (
                      seen,
                      row,
                      found,
                      right,
                      there,
                      is,
                      ap (λ r. record db { users = r }) same,
                    );
                  }

  -- A login writes nothing, or: the user of the address has the password, and one session of a new family
  -- is stored for that user.
  login-LoggedIn :
      (dummy_password_hash : String) (now : ℕ) (new : NewToken) (family_id : ℕ)
      (email password : String) (meta : RequestMeta) (db : Db tables)
      → Ends
          (Atomic db (λ session after.
            (user : User) × (rows : tables.refresh_token.Rows) × (tables.user.find_first
                (λ u. str_eq u.email email)
                db.users
              ≡ some user)
            × (verify_password user.password_hash password ≡ true)
            × (session ≡ token_row now new user.id family_id meta)
            × (tables.refresh_token.create session db.refresh_tokens ≡ some rows)
            × (after ≡ record db { refresh_tokens = rows })))
          (login dummy_password_hash now new family_id email password meta db)
  unfolding login find_by_email issue_session create_refresh_token
  login-LoggedIn dummy now new family_id email password meta db =
      or_throw-then db _ _ _ (λ _. refused)
        λ user found.
          ensure-then db _ _ _ (λ _. refused)
            λ right.
              stored_last db _ _ _ (λ _. refused)
                λ rows created. record {
                  holds = (
                    user,
                    rows,
                    found,
                    subst (λ o. verify_password (hash_to_check dummy o) password ≡ true) found
                        right,
                    refl,
                    created,
                    refl,
                  );
                }
