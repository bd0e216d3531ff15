-- ===== src/Organizations/Lists.antt =====
-- `listForUser` of apps/api/src/modules/organizations/organizations.repository.ts and `listByOrganization` of
-- apps/api/src/modules/members/members.repository.ts: the lists that join another table.
use tasks_platform.Common.{
  refl, sym, ap, false, ℕ, ◌≡◌, ◌↔◌, String, Bool, Option, none, some, List, ◌==◌, leb, not,
  is_some, Among, filter, map_option, arith,
}
use tasks_platform.Common.Collect.{collect, collect_all, filter-Among}
use tasks_platform.Database.Schema.{User, Organization, Membership}
use tasks_platform.Database.Client.{Tables, Db, Result, Action, ok, err, prisma_error}

-- apps/api/src/modules/members/members.types.ts
pub record Member : Type 0 where
  pub membership : Membership
  pub email : String
  pub name : String

-- `orderBy: { joinedAt: 'asc' }`
abbrev pub by_joined_at : Membership → Membership → Bool
by_joined_at a b = leb a.joined_at b.joined_at

-- The client throws where a row that must be there is not.
abbrev pub included : {A : Type 0} → Option (List A) → Result (List A)
included none = err prisma_error
included (some rows) = ok rows

module _ {t : Tables} where
  -- `include: { organization: true }`
  abbrev pub organization_of : Db t → Membership → Option Organization
  organization_of db m = t.organization.get m.organization_id db.organizations

  -- `include: { user: { select: { email: true, name: true } } }`
  abbrev pub member_of : Db t → Membership → Option Member
  member_of db m =
      map_option (λ u. record { membership = m; email = u.email; name = u.name })
        (t.user.get m.user_id db.users)

  unfoldable pub list_for_user : ℕ → Action t (List Organization)
  list_for_user user_id db = (
    included (
        map_option (filter (λ organization. not (is_some organization.deleted_at))) (
          collect (organization_of db)
            (t.membership.find_ordered (λ m. m.user_id == user_id) by_joined_at db.memberships))),
    db,
  )

  unfoldable pub list_by_organization : ℕ → Action t (List Member)
  list_by_organization organization_id db = (
    included (
        collect (member_of db) (
          t.membership.find_ordered (λ m. m.organization_id == organization_id) by_joined_at
            db.memberships)),
    db,
  )

module _ (t : Tables) (db : Db t)
    (foreign_key : (k : ℕ) (m : Membership)
      → t.membership.get k db.memberships ≡ some m
      → (o : Organization) × (t.organization.get m.organization_id db.organizations ≡ some o)) where
  -- Where every membership is of an organization that is stored, the list of a user's organizations is
  -- given, changes nothing, and has exactly the organizations that are not deleted and that the user has a
  -- membership of.
  list_for_user_lem :
      (user_id : ℕ)
      → (organizations : List Organization) × (list_for_user {t = t} user_id db
          ≡ (ok organizations, db))
        × ((o : Organization)
            → Among o organizations ↔ (
                (m : Membership) × (t.membership.get m.id db.memberships ≡ some m)
                × (m.user_id ≡ user_id)
                × (t.organization.get m.organization_id db.organizations ≡ some o)
                × (is_some o.deleted_at ≡ false)))
  unfolding list_for_user
  list_for_user_lem user_id =
      let mine : Membership → Bool = λ m. m.user_id == user_id in
      let live : Organization → Bool = λ o. not (is_some o.deleted_at) in
      let ms = t.membership.find_ordered mine by_joined_at db.memberships in
      let (os, e, all) = collect_all (organization_of db) ms (λ m h.
        foreign_key m.id m
          (t.membership.find_ordered-row mine by_joined_at db.memberships m h).1) in
      (
        filter live os,
        rw e refl,
        (λ o. (
          (λ h.
              let (among, alive) = (filter-Among live os o).0 h in
              let (m, listed, found) = (all o).0 among in
              let (is_mine, stored) =
                t.membership.find_ordered-row mine by_joined_at db.memberships m listed in
              (m, stored, ground arith, found, ground arith)),
          λ (m, stored, is_mine, found, alive). (filter-Among live os o).1 (
            (all o).1 (
              m,
              t.membership.find_ordered-all mine by_joined_at db.memberships m.id m stored
                  (ground arith),
              found,
            ),
            ground arith,
          ),
        )),
      )

module _ (t : Tables) (db : Db t)
    (foreign_key : (k : ℕ) (m : Membership)
      → t.membership.get k db.memberships ≡ some m
      → (u : User) × (t.user.get m.user_id db.users ≡ some u)) where
  member_of-user :
      (m : Membership) (u : User) (member : Member)
      → t.user.get m.user_id db.users ≡ some u
      → member_of db m ≡ some member
      → member ≡ record { membership = m; email = u.email; name = u.name }
  member_of-user m u member found made =
      let joined : member_of db m
          ≡ some (record { membership = m; email = u.email; name = u.name }) =
        ap (map_option (λ w. record { membership = m; email = w.email; name = w.name })) found in
      cc (made, joined)

  -- Where every membership is of a user that is stored, the list of an organization's members is given,
  -- changes nothing, and has exactly the organization's memberships, each with its user's address and name.
  list_by_organization_lem :
      (organization_id : ℕ)
      → (members : List Member) × (list_by_organization {t = t} organization_id db
          ≡ (ok members, db))
        × ((member : Member)
            → Among member members ↔ (
                (m : Membership) × (u : User) × (t.membership.get m.id db.memberships ≡ some m)
                × (m.organization_id ≡ organization_id)
                × (t.user.get m.user_id db.users ≡ some u)
                × (member ≡ record { membership = m; email = u.email; name = u.name })))
  unfolding list_by_organization
  list_by_organization_lem organization_id =
      let in_it : Membership → Bool = λ m. m.organization_id == organization_id in
      let ms = t.membership.find_ordered in_it by_joined_at db.memberships in
      let (members, e, all) = collect_all (member_of db) ms (λ m h.
        let (_, stored) = t.membership.find_ordered-row in_it by_joined_at db.memberships m h in
        let (u, found) = foreign_key m.id m stored in
        (record { membership = m; email = u.email; name = u.name }, rw found refl)) in
      (
        members,
        rw e refl,
        (λ member. (
          (λ h.
              let (m, listed, made) = (all member).0 h in
              let (is_in, stored) =
                t.membership.find_ordered-row in_it by_joined_at db.memberships m listed in
              let (u, found) = foreign_key m.id m stored in
              (m, u, stored, ground arith, found, member_of-user m u member found made)),
          λ (m, u, stored, is_in, found, same). (all member).1 (
            m,
            t.membership.find_ordered-all in_it by_joined_at db.memberships m.id m stored
                (ground arith),
            rw found (ap some (sym same)),
          ),
        )),
      )
