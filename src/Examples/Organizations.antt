-- ===== src/Examples/Organizations.antt =====
-- Organizations and registration.
use tasks_platform.Common.{
  ℕ, zero, suc, ◌≡◌, refl, sym, ap, str_eq, arith, String, none, some, ◌==◌, if◌then◌else◌,
}
use Prim.Native.String.{◌++◌}
use text.Mathlib.TextLemmas.{append_cancel_left}
use tasks_platform.Database.Schema.{Organization}
use tasks_platform.Database.Client.{Db, err, ok}
use tasks_platform.Database.Steps.{Ends}
use tasks_platform.Database.Outcomes.{OnOk}
use tasks_platform.Database.Instance.{memory, memory_tables}
use tasks_platform.Database.Memory.Scan.{rows_below}
use tasks_platform.Organizations.Service
use tasks_platform.Organizations.Service.{free_slug, has_slug, user_row}
use tasks_platform.Organizations.Slugs.{not_empty, free_slug-total}
use tasks_platform.Organizations.Ownership.{Joined, register-Joined}
use tasks_platform.Errors.{other}
use tasks_platform.Accounts.Sessions.{RequestMeta}
use tasks_platform.Examples.Rows

-- A number is printed as that many ones.
tally : ℕ → String
tally zero = ""
tally (suc n) = "1" ++ tally n

tally_injective : (i j : ℕ) → tally i ≡ tally j → i ≡ j
unfolding tally
tally_injective zero zero e = refl
tally_injective zero (suc j) e = absurd (not_empty "1" (tally j) refl e)
tally_injective (suc i) zero e = absurd (not_empty "1" (tally i) refl (sym e))
tally_injective (suc i) (suc j) e =
    ap suc (tally_injective i j (append_cancel_left "1" (tally i) (tally j) e))

abbrev organization : ℕ → String → Organization
organization id slug = record {
  id = id;
  name = "Acme";
  slug = slug;
  created_at = 0;
  deleted_at = none;
}

-- Two organizations are named Acme.
abbrev db : Db memory_tables
db = record Rows.db {
  organizations = record {
    bound = 3;
    row = λ k.
        if k == 1
        then some (organization 1 "acme")
        else if k == 2
        then some (organization 2 "acme-11")
        else none;
  };
}

free_slug-total_example :
    (slug : String) × (free_slug tally "acme" 3 0 db ≡ some slug)
    × (memory_tables.organization.find_first (has_slug slug) db.organizations ≡ none)
unfolding rows_below
free_slug-total_example =
    free_slug-total tally tally_injective memory_tables "acme" db 3 (omega arith)

abbrev draws : Service.Draws
draws = record { now = 5; user_id = 9; organization_id = 9; membership_id = 9 }

abbrev meta : RequestMeta
meta = record { user_agent = none; ip_address = none }

-- The email cannot be queued.
register-Joined_example :
    Ends
      (OnOk (λ user after.
        (memory_tables.user.find_first (λ u. str_eq u.email "bo@example.com") db.users ≡ none)
        × Joined memory tally
            (λ name. "acme")
            draws
            (user_row 9 5 "bo@example.com" "hash" "Bo")
            db
            user
            after))
      (Service.register memory tally
        (λ name. "acme")
        3
        draws
        (record { id = 9; token_hash = "session" })
        9
        meta
        (err (other "Error" ""))
        9
        "token"
        "bo@example.com"
        "hash"
        "Bo"
        db)
    × ((Service.register memory tally
          (λ name. "acme")
          3
          draws
          (record { id = 9; token_hash = "session" })
          9
          meta
          (err (other "Error" ""))
          9
          "token"
          "bo@example.com"
          "hash"
          "Bo"
          db).0
        ≡ (Service.register memory tally
            (λ name. "acme")
            3
            draws
            (record { id = 9; token_hash = "session" })
            9
            meta
            (ok tt)
            9
            "token"
            "bo@example.com"
            "hash"
            "Bo"
            db).0)
register-Joined_example =
    register-Joined memory tally (λ name. "acme") 3 draws
      (record { id = 9; token_hash = "session" }) 9 meta (err (other "Error" "")) (ok tt) 9 9
      "token" "token" "bo@example.com" "hash" "Bo" db
      λ k m there.
        let is_one : m.organization_id ≡ 1 = ground arith in
        (organization 1 "acme", ap (λ i. memory_tables.organization.get i db.organizations) is_one)
