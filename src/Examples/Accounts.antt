-- ===== src/Examples/Accounts.antt =====
-- Sessions and password resets.
use tasks_platform.Common.{◌≡◌, refl, arith, none, some, ◌==◌, if◌then◌else◌}
use tasks_platform.Errors.{app, unauthorized}
use tasks_platform.Database.Schema.{User}
use tasks_platform.Database.Client.{Db, ok, err}
use tasks_platform.Database.Steps.{Ends}
use tasks_platform.Database.Outcomes.{Atomic}
use tasks_platform.Database.Instance.{memory, memory_tables, empty_db}
use tasks_platform.Accounts.Sessions
use tasks_platform.Accounts.Sessions.{RequestMeta, NewToken, token_row}
use tasks_platform.Accounts.Rotation.{Refreshed, FamilyEnded, refresh-Refreshed}
use tasks_platform.Accounts.Families.{OneLive, refresh-OneLive, refresh_once}
use tasks_platform.Accounts.Tokens.{password_reset, account_token_row}
use tasks_platform.Accounts.Recovery.{reset_password}
use tasks_platform.Accounts.Recovery.Reset.{Reset, reset_password-Reset}

abbrev meta : RequestMeta
meta = record { user_agent = none; ip_address = none }

abbrev first_token : NewToken
first_token = record { id = 1; token_hash = "one" }

abbrev next_token : NewToken
next_token = record { id = 2; token_hash = "two" }

abbrev third_token : NewToken
third_token = record { id = 3; token_hash = "three" }

abbrev ada : User
ada = record {
  id = 1;
  email = "ada@example.com";
  password_hash = "old";
  name = "Ada";
  email_verified_at = none;
  created_at = 0;
  deleted_at = none;
}

-- One user with one session and one reset token.
abbrev db : Db memory_tables
db = record empty_db {
  users = record { bound = 2; row = λ k. if k == 1 then some ada else none };
  refresh_tokens = record {
    bound = 2;
    row = λ k. if k == 1 then some (token_row 0 first_token 1 5 meta) else none;
  };
  password_reset_tokens = record {
    bound = 2;
    row = λ k. if k == 1 then some (account_token_row password_reset 0 1 "reset" 1) else none;
  };
}

refresh-Refreshed_example :
    Ends
      (Refreshed memory 10 next_token "one" meta db)
      (Sessions.refresh memory 10 next_token "one" meta db)
refresh-Refreshed_example = refresh-Refreshed memory 10 next_token "one" meta db

refresh-OneLive_example :
    OneLive memory_tables (Sessions.refresh memory 10 next_token "one" meta db).1.refresh_tokens
refresh-OneLive_example =
    refresh-OneLive memory 10 next_token "one" meta db
      (λ j k x y at_j at_k live_x live_y family. ground arith)

refresh_once_example :
    let after = (Sessions.refresh memory 10 next_token "one" meta db).1 in
    let (r, final) = Sessions.refresh memory 20 third_token "one" meta after in
    (r ≡ err (app (unauthorized (some "Invalid refresh token"))))
    × FamilyEnded memory_tables 5 after.refresh_tokens final.refresh_tokens
unfolding Sessions.refresh Sessions.find_refresh_token_by_hash
    tasks_platform.Database.Client.or_throw tasks_platform.Database.Memory.Scan.first_below
    Sessions.detect_reuse tasks_platform.Database.Client.refuse Sessions.rotate
    Sessions.issue_session Sessions.create_refresh_token tasks_platform.Database.Client.stored
    Sessions.revoke_and_replace tasks_platform.Database.Client.changed
refresh_once_example =
    refresh_once memory 10 next_token "one" meta db _ (λ j k x y at_j at_k same. ground arith) refl
      20 third_token meta

reset_password-Reset_example :
    Ends
      (Atomic db (λ _ after. Reset memory_tables 20 "reset" "new" db after))
      (reset_password memory 10 20 "reset" "new" db)
reset_password-Reset_example = reset_password-Reset memory 10 20 "reset" "new" db
