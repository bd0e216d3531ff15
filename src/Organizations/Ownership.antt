-- ===== src/Organizations/Ownership.antt =====
-- A new organization has one owner, the user who made it, and so has that of a new user.
use tasks_platform.Common.{
  ℕ, ◌≡◌, ◌≢◌, inl, inr, refl, sym, ap, ◌∙◌, subst, String, Option, none, some, is_some,
  is_some-false, str_eq,
}
use tasks_platform.Errors.{conflict}
use tasks_platform.Authorization.Permissions.{owner}
use tasks_platform.Database.Table.{created-new, created-old, created-cases}
use tasks_platform.Database.Schema.{User, Organization, Membership, Membership_key}
use tasks_platform.Database.Client.{
  Tables, Db, Prisma, Action, Result, ok, err, continue, refuse, pure, ◌>>=◌, ◌>>◌,
}
use tasks_platform.Database.Steps.{Ends, refuse-then}
use tasks_platform.Database.Outcomes.{OnOk, ok-then, stored-then, atomically, forget_error}
use tasks_platform.Members.Repository as Members
use tasks_platform.Members.Service as MembersService
use tasks_platform.Members.Ownership.{HasOneOwner}
use tasks_platform.Accounts.Users.{find_by_email}
use tasks_platform.Accounts.Sessions.{NewToken, RequestMeta, issue_session, create_refresh_token}
use tasks_platform.Accounts.Verification.{send_verification_email}
use tasks_platform.Accounts.Tokens.{issue, create_token}
use tasks_platform.Organizations.Service.{
  Draws, user_row, organization_row, generate_unique_slug, found_slug, create_row, create_user,
  create_organization, create_account, attempt, register,
}

abbrev threw :
    {t : Tables} {A : Type 0} {P : A → Db t → Type 0} {e : _} {db : Db t}
    → Ends (OnOk P) (err e, db)
threw = record { holds = tt }

record SameAnswer {t : Tables} {A : Type 0} (r s : Result A × Db t) : Type 0 where
  holds : r.0 ≡ s.0

-- Two ways to go on after a step give one answer where they do so after each result of it.
same_answer :
    {t : Tables} {A B : Type 0} (r : Result A × Db t) (f g : A → Db t → Result B × Db t)
    → ((a : A) (d : Db t) → SameAnswer (f a d) (g a d))
    → SameAnswer (continue r f) (continue r g)
same_answer (ok a, d) f g same = same a d
same_answer (err e, d) f g same = record { holds = refl }

module _ (t : Tables) where
  -- Every membership is of an organization that is there: a foreign key.
  abbrev pub NoOrphans : Db t → Type 0
  NoOrphans db =
      (k : ℕ) (m : Membership)
      → t.membership.get k db.memberships ≡ some m
      → (o : Organization) × (t.organization.get m.organization_id db.organizations ≡ some o)

  -- The organization has exactly one owner, and those that had one have one still.
  abbrev pub Owned : ℕ → Db t → Db t → Type 0
  Owned organization_id db after =
      HasOneOwner t organization_id after.memberships
      × ((other : ℕ)
          → other ≢ organization_id
          → HasOneOwner t other db.memberships
          → HasOneOwner t other after.memberships)

  founded :
      (m : Membership) (rows after : t.membership.Rows)
      → m.role ≡ owner
      → ((k : ℕ) (x : Membership)
          → t.membership.get k rows ≡ some x
          → x.organization_id ≢ m.organization_id)
      → t.membership.create m rows ≡ some after
      → HasOneOwner t m.organization_id after
        × ((other : ℕ)
            → other ≢ m.organization_id
            → HasOneOwner t other rows
            → HasOneOwner t other after)
  founded m rows after is_owner alone e = (
    (
      m.id,
      m,
      (created-new t.membership m rows after e, refl, is_owner),
      λ j x (there, of, role). elim (created-cases t.membership m rows after j x e there) [
        | inl new ↦ sym (t.membership.get-key j after x there) ∙ ap Membership_key new
        | inr old ↦ absurd (alone j x old of)
      ],
    ),
    λ other apart (k, x, (there, of, role), only). (
      k,
      x,
      (created-old t.membership m rows after k e there, of, role),
      λ j y (there', of', role'). elim (created-cases t.membership m rows after j y e there') [
        | inl new ↦ absurd (apart (sym of' ∙ ap (λ (r : Membership). r.organization_id) new))
        | inr old ↦ only j y (old, of', role')
      ],
    ),
  )

  slug_found :
      (o : Option String) (db : Db t) → Ends (OnOk (λ _ after. after ≡ db)) (found_slug o db)
  slug_found none db = threw
  slug_found (some slug) db = record { holds = refl }

module _ (prisma : Prisma) (print : ℕ → String) (slugify : String → String) where
  open prisma use {tables}

  create_organization-Owned :
      (fuel : ℕ) (draws : Draws) (name : String) (owner_id : ℕ) (db : Db tables)
      → NoOrphans tables db
      → Ends
          (OnOk (λ _ after. (after.users ≡ db.users) × Owned tables draws.organization_id db after))
          (create_organization prisma print slugify fuel draws name owner_id db)
  unfolding create_organization generate_unique_slug create_row MembersService.add_owner
      Members.create
  create_organization-Owned fuel draws name owner_id db no_orphans =
      ok-then (generate_unique_slug print fuel (slugify name) db)
        (λ slug. do
          organization ← create_row (organization_row draws.organization_id draws.now name slug)
          MembersService.add_owner prisma draws.membership_id draws.now owner_id organization.id
          pure organization)
        (slug_found tables _ db)
        λ slug d same.
          stored-then d _ _ _ _ (λ _. threw)
            λ organizations made.
              stored-then (record d { organizations = organizations }) _ _ _ _ (λ _. threw)
                λ memberships joined. record {
                  holds =
                      subst
                        (λ q.
                          (d.users ≡ q.users)
                          × Owned tables draws.organization_id q (record d {
                            organizations = organizations;
                            memberships = memberships;
                          }))
                        same
                        (
                          refl,
                          founded tables _ d.memberships memberships refl
                              (λ k x there of.
                                let (o, e) = no_orphans k x (
                                  ap (λ q. tables.membership.get k q.memberships) (sym same)
                                  ∙ there) in
                                let fresh =
                                  tables.organization.create-fresh _ d.organizations organizations
                                    made in
                                let e' : tables.organization.get draws.organization_id
                                      d.organizations
                                    ≡ some o =
                                  ap
                                    (λ q.
                                      tables.organization.get draws.organization_id q.organizations)
                                    same
                                  ∙ ap (λ i. tables.organization.get i db.organizations) (sym of)
                                  ∙ e in
                                absurd (cc))
                              joined,
                        );
                }

  -- The new user is there, and the new organization has one owner.
  abbrev pub Joined : Draws → User → Db tables → User → Db tables → Type 0
  Joined draws row db user after =
      (user ≡ row)
      × (tables.user.get row.id after.users ≡ some row)
      × Owned tables draws.organization_id db after

  create_account-Joined :
      (fuel : ℕ) (draws : Draws) (email password_hash name : String) (db : Db tables)
      → NoOrphans tables db
      → Ends
          (OnOk (Joined draws (user_row draws.user_id draws.now email password_hash name) db))
          (create_account prisma print slugify fuel draws email password_hash name db)
  unfolding create_account create_user
  create_account-Joined fuel draws email password_hash name db no_orphans =
      stored-then db _ _ _ _ (λ _. threw)
        λ users made.
          ok-then _ _
            (create_organization-Owned fuel draws _ draws.user_id (record db { users = users })
              no_orphans)
            λ organization after (same, owned). record {
              holds = (
                refl,
                ap (tables.user.get draws.user_id) same
                    ∙ created-new tables.user _ db.users users made,
                owned,
              );
            }

  after_email :
      (draws : Draws) (row : User) (db : Db tables) (user : User) (d after : Db tables)
      → Joined draws row db user d
      → after.users ≡ d.users
      → after.memberships ≡ d.memberships
      → Joined draws row db user after
  after_email draws row db user d after (same, found, owned) users memberships =
      let (one, others) = owned in
      (
        same,
        ap (tables.user.get row.id) users ∙ found,
        (
          subst (HasOneOwner tables draws.organization_id) (sym memberships) one,
          λ other apart h.
              subst (HasOneOwner tables other) (sym memberships) (others other apart h),
        ),
      )

  -- The email that is sent changes neither users nor memberships.
  sent_apart :
      (queued : Result (Unit {0})) (now id : ℕ) (token_hash : String) (user : User) (db : Db tables)
      → Ends
          (λ r. (r.1.users ≡ db.users) × (r.1.memberships ≡ db.memberships))
          (send_verification_email queued now id token_hash user db)
  unfolding send_verification_email issue create_token
  sent_apart queued now id token_hash user db =
      stored-then db _ _ _ _ (λ _. record { holds = (refl, refl) })
        (λ rows _. record { holds = (refl, refl) })

  register-OnOk :
      (fuel : ℕ) (draws : Draws) (new : NewToken) (family_id : ℕ) (meta : RequestMeta)
      (queued : Result (Unit {0})) (token_id : ℕ) (token_hash email password_hash name : String)
      (db : Db tables)
      → NoOrphans tables db
      → Ends
          (OnOk (λ user after.
            (tables.user.find_first (λ user. str_eq user.email email) db.users ≡ none)
            × Joined draws
                (user_row draws.user_id draws.now email password_hash name)
                db
                user
                after))
          (register prisma print slugify fuel draws new family_id meta queued token_id token_hash
            email password_hash name db)
  unfolding register find_by_email issue_session create_refresh_token
  register-OnOk fuel draws new family_id meta queued token_id token_hash email password_hash name db
        no_orphans =
      refuse-then db _ _ _ (λ _. threw)
        λ unused.
          ok-then _ _
            (forget_error _
              (atomically prisma db _
                (create_account-Joined fuel draws email password_hash name db no_orphans))
              (λ user after joined. joined))
            λ user d joined.
              stored-then d _ _ _ _ (λ _. threw)
                λ rows _.
                  let apart =
                    sent_apart queued draws.now token_id token_hash user
                      (record d { refresh_tokens = rows }) in
                  record {
                    holds = (
                      is_some-false _ unused,
                      after_email draws _ db user d
                          (send_verification_email queued draws.now token_id token_hash user
                            (record d { refresh_tokens = rows })).1
                          joined apart.holds.0 apart.holds.1,
                    );
                  }

  module _ (fuel : ℕ) (draws : Draws) (new : NewToken) (family_id : ℕ) (meta : RequestMeta)
      (email password_hash name : String) where
    -- What is done before the email is sent, and then something else in its place.
    abbrev signed_in : (User → Action tables User) → User → Action tables User
    signed_in rest created = do
      issue_session prisma draws.now new created.id family_id meta
      rest created

    abbrev admitted : (User → Action tables User) → Option User → Action tables User
    admitted rest existing = do
      refuse (is_some existing) (conflict (some "Email is already registered"))
      created ←
          prisma.transaction User
            (create_account prisma print slugify fuel draws email password_hash name)
      signed_in rest created

    admitted-same :
        (rest rest' : User → Action tables User)
        → ((u : User) (d : Db tables) → SameAnswer (rest u d) (rest' u d))
        → (existing : Option User) (db : Db tables)
        → SameAnswer (admitted rest existing db) (admitted rest' existing db)
    admitted-same rest rest' same existing db =
        let account =
          prisma.transaction User
            (create_account prisma print slugify fuel draws email password_hash name) in
        same_answer (refuse (is_some existing) (conflict (some "Email is already registered")) db)
          (λ _. account >>= signed_in rest) (λ _. account >>= signed_in rest')
          λ _ d. same_answer (account d) (signed_in rest) (signed_in rest') λ created d'.
            same_answer (issue_session prisma draws.now new created.id family_id meta d')
              (λ _. rest created) (λ _. rest' created) (λ _ d''. same created d'')

    -- What is answered does not depend on the email, or on whether its token can be stored.
    register_answer :
        (queued queued' : Result (Unit {0})) (token_id token_id' : ℕ)
        (token_hash token_hash' : String) (db : Db tables)
        → SameAnswer
            (register prisma print slugify fuel draws new family_id meta queued token_id token_hash
              email password_hash name db)
            (register prisma print slugify fuel draws new family_id meta queued' token_id'
              token_hash' email password_hash name db)
    unfolding register
    register_answer queued queued' token_id token_id' token_hash token_hash' db =
        let sent : Result (Unit {0}) → ℕ → String → User → Action tables User = λ q i h created.
          attempt prisma print slugify (send_verification_email q draws.now i h created)
          >> pure created in
        same_answer (find_by_email email db) (admitted (sent queued token_id token_hash))
          (admitted (sent queued' token_id' token_hash'))
          (admitted-same (sent queued token_id token_hash) (sent queued' token_id' token_hash')
            (λ u d. record { holds = refl }))

  -- A registration succeeds only for an address that no user has, and where it succeeds the new user is
  -- there, the new organization has exactly one owner, and each other that had one has one still. What is
  -- answered, and so whether it succeeds, is the same whether or not the email can be queued and its token
  -- stored. It is supposed that no membership is of an organization that does not exist.
  pub register-Joined :
      (fuel : ℕ) (draws : Draws) (new : NewToken) (family_id : ℕ) (meta : RequestMeta)
      (queued queued' : Result (Unit {0})) (token_id token_id' : ℕ)
      (token_hash token_hash' email password_hash name : String) (db : Db tables)
      → NoOrphans tables db
      → Ends
          (OnOk (λ user after.
            (tables.user.find_first (λ user. str_eq user.email email) db.users ≡ none)
            × Joined draws
                (user_row draws.user_id draws.now email password_hash name)
                db
                user
                after))
          (register prisma print slugify fuel draws new family_id meta queued token_id token_hash
            email password_hash name db)
        × ((register prisma print slugify fuel draws new family_id meta queued token_id token_hash
              email password_hash name db).0
            ≡ (register prisma print slugify fuel draws new family_id meta queued' token_id'
                token_hash' email password_hash name db).0)
  register-Joined fuel draws new family_id meta queued queued' token_id token_id' token_hash
        token_hash' email password_hash name db no_orphans =
      (
        register-OnOk fuel draws new family_id meta queued token_id token_hash email password_hash
            name db no_orphans,
        (register_answer fuel draws new family_id meta email password_hash name queued queued'
            token_id token_id' token_hash token_hash' db).holds,
      )
