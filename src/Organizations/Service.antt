-- ===== src/Organizations/Service.antt =====
-- apps/api/src/modules/organizations (organizations.service.ts, organizations.repository.ts): the operations
-- that write, and `register` of apps/api/src/modules/auth/auth.service.ts. What `slugify` makes of a name
-- by the text functions of JavaScript is an argument, and so is the printing of a number. The loop over
-- the candidates for a slug takes fuel.
use tasks_platform.Common.{ℕ, zero, suc, ◌+◌, String, Bool, Option, none, some, str_eq, is_some}
use Prim.Native.String.{◌++◌}
use tasks_platform.Errors.{not_found, conflict, other}
use tasks_platform.Database.Schema.{User, Organization}
use tasks_platform.Database.Client.{
  Tables, Db, Prisma, Result, Action, ok, err, pure, refuse, or_throw, stored, changed, ◌>>=◌, ◌>>◌,
}
use tasks_platform.Members.Service as Members
use tasks_platform.Members.Gate.{find_organization}
use tasks_platform.Accounts.Users.{find_by_email}
use tasks_platform.Accounts.Sessions.{NewToken, RequestMeta, issue_session}
use tasks_platform.Accounts.Verification.{send_verification_email}

-- `base`, then `${base}-${suffix}` from 2 on
unfoldable pub candidate : (ℕ → String) → String → ℕ → String
candidate print base zero = base
candidate print base (suc n) = base ++ ("-" ++ print (n + 2))

abbrev pub has_slug : String → Organization → Bool
has_slug slug organization = str_eq organization.slug slug

abbrev pub named : String → Organization → Organization
named name organization = record organization { name = name }

abbrev pub deleted : ℕ → Organization → Organization
deleted now organization = record organization { deleted_at = some now }

abbrev pub organization_row : ℕ → ℕ → String → String → Organization
organization_row id now name slug = record {
  id = id;
  name = name;
  slug = slug;
  created_at = now;
  deleted_at = none;
}

abbrev pub user_row : ℕ → ℕ → String → String → String → User
user_row id now email password_hash name = record {
  id = id;
  email = email;
  password_hash = password_hash;
  name = name;
  email_verified_at = none;
  created_at = now;
  deleted_at = none;
}

-- The keys of the rows that are created, and the time.
pub record Draws : Type 0 where
  pub now : ℕ
  pub user_id : ℕ
  pub organization_id : ℕ
  pub membership_id : ℕ

module _ {t : Tables} where
  unfoldable pub create_row : Organization → Action t Organization
  create_row row db =
      stored (t.organization.create row db.organizations)
        (λ rows. record db { organizations = rows }) row db

  unfoldable pub change_organization : ℕ → (Organization → Organization) → Action t Organization
  change_organization id change db =
      changed (t.organization.update id change db.organizations)
        (λ rows. record db { organizations = rows }) db

  -- The loop of `generateUniqueSlug`: none if the fuel ran out.
  unfoldable pub free_slug : (ℕ → String) → String → ℕ → ℕ → Db t → Option String
  free_slug print base zero n db = none
  free_slug print base (suc fuel) n db =
      elim (t.organization.find_first (has_slug (candidate print base n)) db.organizations) [
        | none ↦ some (candidate print base n)
        | some taken ↦ free_slug print base fuel (suc n) db
      ]

  abbrev pub found_slug : Option String → Action t String
  found_slug none db = (err (other "OutOfFuel" ""), db)
  found_slug (some slug) db = (ok slug, db)

  unfoldable pub generate_unique_slug : (ℕ → String) → ℕ → String → Action t String
  generate_unique_slug print fuel base db = found_slug (free_slug print base fuel 0 db) db

  -- usersRepository.create
  unfoldable pub create_user : User → Action t User
  create_user row db =
      stored (t.user.create row db.users) (λ rows. record db { users = rows }) row db

  unfoldable pub get_by_id : ℕ → Action t Organization
  get_by_id organization_id = do
    organization ← find_organization organization_id
    or_throw organization (not_found (some "Organization not found"))

  unfoldable pub update : ℕ → String → Action t Organization
  update organization_id name = change_organization organization_id (named name)

  unfoldable pub remove : ℕ → ℕ → Action t (Unit {0})
  remove now organization_id = change_organization organization_id (deleted now) >> pure tt

module _ (prisma : Prisma) (print : ℕ → String) (slugify : String → String) where
  open prisma use {tables}

  unfoldable pub create_organization : ℕ → Draws → String → ℕ → Action tables Organization
  create_organization fuel draws name owner_id = do
    slug ← generate_unique_slug print fuel (slugify name)
    organization ← create_row (organization_row draws.organization_id draws.now name slug)
    Members.add_owner prisma draws.membership_id draws.now owner_id organization.id
    pure organization

  -- The block of the transaction in `register`.
  unfoldable pub create_account : ℕ → Draws → String → String → String → Action tables User
  create_account fuel draws email password_hash name = do
    created ← create_user (user_row draws.user_id draws.now email password_hash name)
    create_organization fuel draws (name ++ "'s organization") created.id
    pure created

  -- `try { … } catch { … }`: a failure is only logged, but what was written stays.
  abbrev pub attempt : {A : Type 0} → Action tables A → Action tables (Unit {0})
  attempt action db = (ok tt, (action db).1)

  unfoldable pub register :
      ℕ
      → Draws
      → NewToken
      → ℕ
      → RequestMeta
      → Result (Unit {0})
      → ℕ
      → String
      → String
      → String
      → String
      → Action tables User
  register fuel draws new family_id meta queued token_id token_hash email password_hash name = do
    existing ← find_by_email email
    refuse (is_some existing) (conflict (some "Email is already registered"))
    created ← prisma.transaction User (create_account fuel draws email password_hash name)
    issue_session prisma draws.now new created.id family_id meta
    attempt (send_verification_email queued draws.now token_id token_hash created)
    pure created
