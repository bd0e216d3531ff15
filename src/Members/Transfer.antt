-- ===== src/Members/Transfer.antt =====
-- `transferOwnership`: the ownership moves, and only when the caller's membership is the owner's.
use tasks_platform.Common.{
  ℕ, ◌≡◌, ◌≢◌, inl, inr, refl, sym, ap, ◌∙◌, false, some, arith, ◌==◌, if◌then◌else◌, ℕ-cases,
}
use tasks_platform.Authorization.Permissions.{owner, admin, is_owner}
use tasks_platform.Database.Schema.{Membership}
use tasks_platform.Database.Client.{Tables, Db, Prisma, Result, ok, refuse, or_throw}
use tasks_platform.Database.Steps.{Ends, refuse-then, or_throw-then}
use tasks_platform.Members.Repository.{
  membership_of, with_role, role_set, get-role_set, update_role_found,
}
use tasks_platform.Members.Service
use tasks_platform.Members.Ownership.{Owns, HasOneOwner}

module _ (t : Tables) where
  -- The rows after the block of the transaction.
  abbrev pub handed : ℕ → ℕ → t.membership.Rows → t.membership.Rows
  handed from to rows = role_set t to owner (role_set t from admin rows)

  module _ (from to : ℕ) (rows : t.membership.Rows) (giver taker : Membership)
      (found_giver : t.membership.get from rows ≡ some giver)
      (found_taker : t.membership.get to rows ≡ some taker) (apart : from ≢ to) where
    pub get-handed :
        (k : ℕ)
        → t.membership.get k (handed from to rows) ≡ (
            if k == to
            then some (with_role owner taker)
            else if k == from
            then some (with_role admin giver)
            else t.membership.get k rows)
    get-handed k = elim (ℕ-cases k to) [
      | inl at_to ↦ ground (
        arith,
        get-role_set t to k owner (role_set t from admin rows),
        get-role_set t from k admin rows,
        ap (λ i. t.membership.get i rows) at_to,
      )
      | inr not_to ↦ elim (ℕ-cases k from) [
        | inl at_from ↦ ground (
          arith,
          get-role_set t to k owner (role_set t from admin rows),
          get-role_set t from k admin rows,
          ap (λ i. t.membership.get i rows) at_from,
        )
        | inr elsewhere ↦ ground (
          arith,
          get-role_set t to k owner (role_set t from admin rows),
          get-role_set t from k admin rows,
        )
      ]
    ]

    -- With a giver and a taker who are not owners, the owner stays and the taker becomes another.
    pub handed-two :
        (organization_id : ℕ)
        → taker.organization_id ≡ organization_id
        → (k : ℕ) (now_owner : Membership) → Owns t rows organization_id k now_owner
        → is_owner giver.role ≡ false
        → is_owner taker.role ≡ false
        → Owns t (handed from to rows) organization_id k now_owner
          × Owns t (handed from to rows) organization_id to (with_role owner taker)
          × (k ≢ to)
    handed-two org of_taker k now_owner (found, here, is) gone plain =
        let not_to : k ≢ to = λ same. ground (arith, ap (λ i. t.membership.get i rows) same) in
        let not_from : k ≢ from = λ same. ground (arith, ap (λ i. t.membership.get i rows) same) in
        (
          (ground (arith, get-handed k), here, is),
          (ground (arith, get-handed to), of_taker, refl),
          not_to,
        )

    module _ (organization_id : ℕ) (of_giver : giver.organization_id ≡ organization_id)
        (of_taker : taker.organization_id ≡ organization_id) (gives : giver.role ≡ owner) where
      -- The taker owns the organization, and is the only one to do so.
      pub handed-HasOneOwner :
          HasOneOwner t organization_id rows → HasOneOwner t organization_id (handed from to rows)
      handed-HasOneOwner (k, m, owns, only) = (
        to,
        with_role owner taker,
        (ground (arith, get-handed to), of_taker, refl),
        λ j x owned. elim (ℕ-cases j to) [
          | inl same ↦ same
          | inr not_to ↦ ground (arith, get-handed j, only j x, only from giver)
        ],
      )

      -- No other organization is touched.
      pub handed-other :
          (other : ℕ)
          → other ≢ organization_id
          → HasOneOwner t other rows
          → HasOneOwner t other (handed from to rows)
      handed-other other ne (k, m, owns, only) = (
        k,
        m,
        (
          ground (
            arith,
            get-handed k,
            ap (λ i. t.membership.get i rows) {x = k} {y = to},
            ap (λ i. t.membership.get i rows) {x = k} {y = from},
          ),
          owns.1,
          owns.2,
        ),
        λ j x owned. ground (arith, get-handed j, only j x),
      )

module _ (prisma : Prisma) where
  open prisma use {tables}

  hand_over_lem :
      (from to : ℕ) (db : Db tables) {giver taker : Membership}
      → tables.membership.get from db.memberships ≡ some giver
      → tables.membership.get to db.memberships ≡ some taker
      → from ≢ to
      → Service.hand_over prisma from to db
        ≡ (ok tt, record db { memberships = handed tables from to db.memberships })
  unfolding Service.hand_over
  hand_over_lem from to db {giver} {taker} found_giver found_taker apart =
      let middle : Db tables = record db {
        memberships = role_set tables from admin db.memberships;
      } in
      let still : tables.membership.get to middle.memberships ≡ some taker =
        ground (arith, get-role_set tables from to admin db.memberships) in
      rw (update_role_found tables from admin db found_giver)
        (rw (update_role_found tables to owner middle still))

  pub member_found :
      (user_id organization_id : ℕ) (db : Db tables) {m : Membership}
      → tables.membership.find_first (membership_of user_id organization_id) db.memberships ≡ some m
      → (m.organization_id ≡ organization_id) × (tables.membership.get m.id db.memberships ≡ some m)
  member_found user_id organization_id db {m} e =
      let (meets, found) =
        tables.membership.find_first-some (membership_of user_id organization_id) db.memberships m
          e in
      (ground arith, found)

  transaction_done :
      (from to : ℕ) (db : Db tables) {giver taker : Membership}
      → tables.membership.get from db.memberships ≡ some giver
      → tables.membership.get to db.memberships ≡ some taker
      → from ≢ to
      → prisma.transaction (Unit {0}) (Service.hand_over prisma from to) db
        ≡ (ok tt, record db { memberships = handed tables from to db.memberships })
  transaction_done from to db found_giver found_taker apart = rw (
    prisma.transaction_lem (Unit {0}) (Service.hand_over prisma from to) db,
    hand_over_lem from to db found_giver found_taker apart,
  )

  -- To a member who is not the owner, from a membership other than the member's own: the transfer
  -- goes through, whatever role the giving membership has by then.
  transfer_ownership_done :
      (organization_id from user_id : ℕ) (db : Db tables) {giver taker : Membership}
      → tables.membership.get from db.memberships ≡ some giver
      → tables.membership.find_first (membership_of user_id organization_id) db.memberships
        ≡ some taker
      → is_owner taker.role ≡ false
      → from ≢ taker.id
      → Service.transfer_ownership prisma organization_id from user_id db
        ≡ (ok tt, record db { memberships = handed tables from taker.id db.memberships })
  unfolding Service.transfer_ownership Service.require_membership_by_user refuse or_throw
  transfer_ownership_done org from user db {giver} {taker} found_giver e plain apart = rw e (
      rw plain (transaction_done from taker.id db found_giver (member_found user org db e).1 apart))

  distinct :
      (from : ℕ) (db : Db tables) (giver taker : Membership)
      → tables.membership.get from db.memberships ≡ some giver
      → tables.membership.get taker.id db.memberships ≡ some taker
      → giver.role ≡ owner
      → is_owner taker.role ≡ false
      → from ≢ taker.id
  distinct from db giver taker found_giver found_taker gives plain same =
      ground (arith, ap (λ i. tables.membership.get i db.memberships) same)

  -- Called with the membership of the owner, a transfer leaves every organization with the one owner
  -- that it must have, whether it goes through or is refused.
  pub transfer_ownership-HasOneOwner :
      (organization_id from user_id : ℕ) (db : Db tables) {giver : Membership}
      → Owns tables db.memberships organization_id from giver
      → (other : ℕ) → HasOneOwner tables other db.memberships
      → HasOneOwner tables other
          (Service.transfer_ownership prisma organization_id from user_id db).1.memberships
  unfolding Service.transfer_ownership Service.require_membership_by_user
  transfer_ownership-HasOneOwner org from user db {giver} (found, here, gives) other one =
      ended.holds
    where
      Q : Result (Unit {0}) × Db tables → Type 0
      Q r = HasOneOwner tables other r.1.memberships

      moved :
          (taker : Membership)
          → tables.membership.find_first (membership_of user org) db.memberships ≡ some taker
          → is_owner taker.role ≡ false
          → Q (ok tt, record db { memberships = handed tables from taker.id db.memberships })
      moved taker e plain =
          let (there, found_taker) = member_found user org db e in
          let apart = distinct from db giver taker found found_taker gives plain in
          elim (ℕ-cases other org) [
            | inl same ↦
                handed-HasOneOwner tables from taker.id db.memberships giver taker found found_taker
                  apart other (here ∙ sym same) (there ∙ sym same) gives one
            | inr ne ↦
                handed-other tables from taker.id db.memberships giver taker found found_taker apart
                  org here there gives other ne one
          ]

      ended : Ends Q (Service.transfer_ownership prisma org from user db)
      ended =
          or_throw-then db _ _ _ (λ _. record { holds = one })
            λ taker e.
              refuse-then db _ _ _ (λ _. record { holds = one })
                λ plain.
                  let (there, found_taker) = member_found user org db e in
                  rw
                    (transaction_done from taker.id db found found_taker
                      (distinct from db giver taker found found_taker gives plain))
                    (record { holds = moved taker e plain })

  -- A transfer made with a stored membership that is not the owner's any more, as that of the second of two
  -- overlapping transfers, to a member who is neither the owner now nor the one whose membership it is made
  -- with: it goes through, and the organization has two owners, the one that it had and that member.
  pub transfer_ownership_stale :
      (organization_id from user_id : ℕ) (db : Db tables) {giver taker now_owner : Membership}
      (k : ℕ)
      → tables.membership.get from db.memberships ≡ some giver
      → is_owner giver.role ≡ false
      → Owns tables db.memberships organization_id k now_owner
      → tables.membership.find_first (membership_of user_id organization_id) db.memberships
        ≡ some taker
      → is_owner taker.role ≡ false
      → from ≢ taker.id
      → let (r, after) = Service.transfer_ownership prisma organization_id from user_id db in
        (r ≡ ok tt)
        × Owns tables after.memberships organization_id k now_owner
        × Owns tables after.memberships organization_id taker.id (with_role owner taker)
        × (k ≢ taker.id)
  transfer_ownership_stale org from user db {giver} {taker} {now_owner} k found_giver gone owns e
        plain apart =
      let (stays, joins, apart_too) =
        handed-two tables from taker.id db.memberships giver taker found_giver
          (member_found user org db e).1 apart org (member_found user org db e).0 k now_owner owns
          gone plain in
      rw (transfer_ownership_done org from user db found_giver e plain apart)
        (refl, stays, joins, apart_too)
