-- ===== src/Examples/Invitations.antt =====
-- Invitations.
use tasks_platform.Common.{
  ℕ, ◌≡◌, ◌∙◌, ap, sym, refl, arith, none, some, [], ◌∷◌, ◌==◌, str_eq, inl, inr, ℕ-cases,
  if◌then◌else◌,
}
use tasks_platform.Errors.{app, conflict}
use tasks_platform.Authorization.Permissions.{member}
use tasks_platform.Database.Schema.{User, Invitation}
use tasks_platform.Database.Client.{Db, ok, err}
use tasks_platform.Database.Instance.{memory, memory_tables}
use tasks_platform.Database.Memory.Scan.{first_below}
use tasks_platform.Members.Gate.{user_auth}
use tasks_platform.Invitations.Repository.{accepted}
use tasks_platform.Invitations.Service
use tasks_platform.Invitations.Controller.{Draws, create, accept, revoke, serve_all}
use tasks_platform.Invitations.Acceptance.{accept_once}
use tasks_platform.Invitations.Machine.{Reach}
use tasks_platform.Invitations.Lifecycle.{serve_all-Reach}
use tasks_platform.Examples.Rows.{membership}
use tasks_platform.Examples.Rows

abbrev person : ℕ → User
person id = record {
  id = id;
  email = if id == 4 then "ana@example.com" else "someone@example.com";
  password_hash = "hash";
  name = "Ana";
  email_verified_at = none;
  created_at = 0;
  deleted_at = none;
}

abbrev invitation : Invitation
invitation = record {
  id = 1;
  organization_id = 1;
  email = "ana@example.com";
  role = member;
  token_hash = "token";
  invited_by_id = 2;
  expires_at = 100;
  accepted_at = none;
  revoked_at = none;
  created_at = 0;
}

-- User 4, who is no member, has been invited.
abbrev db : Db memory_tables
db = record Rows.db {
  users = record {
    bound = 5;
    row = λ k. if k == 4 then some (person 4) else if k == 2 then some (person 2) else none;
  };
  invitations = record { bound = 2; row = λ k. if k == 1 then some invitation else none };
}

abbrev draws : ℕ → Draws
draws now = record { now = now; id = 9; token_hash = "fresh"; queued = ok tt }

serve_all-Reach_example : Reach (memory_tables.invitation.get 1 db.invitations) (
    memory_tables.invitation.get 1
      (serve_all memory
        ((draws 5, some (user_auth 4), accept "token")
          ∷ (draws 6, some (user_auth 2), revoke 1 1)
          ∷ (draws 7, some (user_auth 2), create 1 "bo@example.com" member)
          ∷ [])
        db).invitations)
serve_all-Reach_example =
    serve_all-Reach memory
      ((draws 5, some (user_auth 4), accept "token")
        ∷ (draws 6, some (user_auth 2), revoke 1 1)
        ∷ (draws 7, some (user_auth 2), create 1 "bo@example.com" member)
        ∷ [])
      db 1

abbrev other_invitation : Invitation
other_invitation = record invitation { id = 2; email = "bo@example.com"; token_hash = "other" }

-- User 4 has accepted, and then Bo has been invited.
abbrev after_accept : Db memory_tables
after_accept = (Service.accept memory 5 9 "token" 4 "ana@example.com" db).1

abbrev later : Db memory_tables
later = record after_accept {
  invitations = record {
    bound = 3;
    row = λ k.
        if k == 2
        then some other_invitation
        else if k == 1
        then some (accepted 5 invitation)
        else none;
  };
}

key_of_hash :
    (k : ℕ) (x : Invitation)
    → memory_tables.invitation.get k later.invitations ≡ some x
    → k ≡ (if str_eq x.token_hash "token" then 1 else 2)
key_of_hash k x there = elim (ℕ-cases k 2) [
  | inl two ↦
      let is : x ≡ other_invitation = ground arith in
      two ∙ sym (ap (λ (r : Invitation). if str_eq r.token_hash "token" then 1 else 2) is)
  | inr not_two ↦ elim (ℕ-cases k 1) [
    | inl one ↦
        let is : x ≡ accepted 5 invitation = ground arith in
        one ∙ sym (ap (λ (r : Invitation). if str_eq r.token_hash "token" then 1 else 2) is)
    | inr not_one ↦ absurd (ground arith)
  ]
]

accept_once_example :
    Service.accept memory 6 10 "token" 3 "bo@example.com" later
    ≡ (err (app (conflict (some "Invitation has already been accepted"))), later)
unfolding first_below Service.accept tasks_platform.Invitations.Repository.find_by_token_hash
    tasks_platform.Database.Client.or_throw tasks_platform.Database.Client.refuse
    tasks_platform.Database.Client.ensure
    tasks_platform.Members.Repository.find_by_user_and_organization Service.admit_invited
    tasks_platform.Members.Repository.create tasks_platform.Database.Client.stored
    tasks_platform.Invitations.Repository.mark_accepted tasks_platform.Database.Client.changed
    tasks_platform.Accounts.Tokens.mark_email_verified
accept_once_example =
    accept_once memory 5 9 "token" 4 "ana@example.com" db after_accept 6 10 3 "bo@example.com" later
      (λ k j x y at_k at_j same. ground arith)
      (λ k j x y at_k at_j same.
        key_of_hash k x at_k
        ∙ ap (λ h. if str_eq h "token" then 1 else 2) same
        ∙ sym (key_of_hash j y at_j))
      refl (λ k x there hashed. ground arith)
