-- ===== src/Members/Invariant.antt =====
-- Every organization keeps exactly one owner through any history of requests, each of them run to
-- its end before the next; and what a change of roles can do.
use tasks_platform.Common.{ℕ, ◌≡◌, subst, Option, some, List, [], ◌∷◌, arith}
use tasks_platform.Authorization.Permissions.{
  Role, member_update_role, member_remove, member_leave, ownership_transfer,
}
use tasks_platform.Database.Client.{Db, Prisma, Result}
use tasks_platform.Database.Steps.{Ends, or_throw-then, reads-then, replaced-then}
use tasks_platform.Members.Gate.{
  AuthContext, user_auth, api_key_auth, MembershipContext, require_user_actor, require_user_id,
}
use tasks_platform.Members.Service
use tasks_platform.Members.Controller.{Request, admit, serve, serve_all}
use tasks_platform.Members.Admission.{
  Admitted, admit-Admitted, admit-reads, require_user_actor-reads, require_user_id-reads,
  ownership_transfer-owner,
}
use tasks_platform.Members.Ownership.{
  Kept, HasOneOwner, HasOneOwner-of_KeepsOwners, update_role-Kept, remove-Kept, leave-Kept,
}
use tasks_platform.Members.Transfer.{transfer_ownership-HasOneOwner, member_found}

module _ (prisma : Prisma) where
  open prisma use {tables}

  module _ (other : ℕ) where
    abbrev One : {A : Type 0} → Result A × Db tables → Type 0
    One r = HasOneOwner tables other r.1.memberships

    same_owners :
        {A : Type 0} {r : Result A} {db : Db tables}
        → HasOneOwner tables other db.memberships
        → Ends One (r, db)
    same_owners one = record { holds = one }

    owners_after :
        (db : Db tables) {A : Type 0} (r : Result A × Db tables)
        → Ends (Kept prisma db) r
        → HasOneOwner tables other db.memberships
        → HasOneOwner tables other r.1.memberships
    owners_after db r kept one =
        HasOneOwner-of_KeepsOwners tables other db.memberships r.1.memberships kept.holds one

    -- The membership that the gate hands to a transfer is the owner's.
    transferred :
        (a : AuthContext) (organization_id user_id membership_id : ℕ) (m : MembershipContext)
        (db : Db tables)
        → Admitted prisma db a organization_id ownership_transfer m
        → m.membership_id ≡ some membership_id
        → HasOneOwner tables other db.memberships
        → One (Service.transfer_ownership prisma m.organization_id membership_id user_id db)
    transferred (api_key_auth id key_org scopes) org new_owner membership_id m db (_, _, is) here
          one =
        absurd (ground arith)
    transferred (user_auth id) org new_owner membership_id m db (row, found, holds, is) here one =
        let (of, there) = member_found prisma id org db found in
        let same : row.id ≡ membership_id = ground arith in
        transfer_ownership-HasOneOwner prisma m.organization_id membership_id new_owner db
          (
            subst (λ i. tables.membership.get i db.memberships ≡ some row) same there,
            ground arith,
            ownership_transfer-owner row.role holds,
          )
          other one

    serve-One :
        (auth : Option AuthContext) (request : Request) (db : Db tables)
        → HasOneOwner tables other db.memberships
        → Ends One (serve prisma auth request db)
    unfolding serve
    serve-One auth (Request.update_role org target role) db one =
        reads-then db (admit prisma auth org member_update_role) _
          (admit-reads prisma auth org member_update_role db) (λ e _. same_owners one)
          λ (m : MembershipContext) _.
            reads-then db (require_user_actor auth (some m)) _
              (require_user_actor-reads prisma auth (some m) db) (λ e _. same_owners one)
              λ (actor : ℕ × Role) _.
                replaced-then (λ d. HasOneOwner tables other d.memberships) db
                  (Service.update_role prisma m.organization_id actor.1 target role) tt
                  (owners_after db _
                    (update_role-Kept prisma m.organization_id actor.1 target role db) one)
    serve-One auth (Request.remove org target) db one =
        reads-then db (admit prisma auth org member_remove) _
          (admit-reads prisma auth org member_remove db) (λ e _. same_owners one)
          λ (m : MembershipContext) _.
            reads-then db (require_user_actor auth (some m)) _
              (require_user_actor-reads prisma auth (some m) db) (λ e _. same_owners one)
              λ (actor : ℕ × Role) _. record {
                holds =
                    owners_after db _ (remove-Kept prisma m.organization_id actor.1 target db) one;
              }
    serve-One auth (Request.leave org) db one =
        reads-then db (admit prisma auth org member_leave) _
          (admit-reads prisma auth org member_leave db) (λ e _. same_owners one)
          λ (m : MembershipContext) _.
            reads-then db (require_user_id auth) _ (require_user_id-reads prisma auth db)
              (λ e _. same_owners one)
              λ user_id _. record {
                holds = owners_after db _ (leave-Kept prisma m.organization_id user_id db) one;
              }
    serve-One auth (Request.transfer_ownership org user_id) db one =
        reads-then db (admit prisma auth org ownership_transfer) _
          (admit-reads prisma auth org ownership_transfer db) (λ e _. same_owners one)
          λ (m : MembershipContext) admitted.
            or_throw-then db _ _ _ (λ _. same_owners one)
              λ membership_id here.
                let (a, _, _, is) =
                  admit-Admitted prisma auth org ownership_transfer db db m admitted in
                record { holds = transferred a org user_id membership_id m db is here one }

  -- After any list of requests, whoever makes them and whatever becomes of each, an organization
  -- that had exactly one owner has exactly one.
  pub serve_all-HasOneOwner :
      (requests : List (Option AuthContext × Request)) (db : Db tables) (organization_id : ℕ)
      → HasOneOwner tables organization_id db.memberships
      → HasOneOwner tables organization_id (serve_all prisma requests db).memberships
  unfolding serve_all
  serve_all-HasOneOwner [] db org one = one
  serve_all-HasOneOwner ((auth, request) ∷ rest) db org one =
      serve_all-HasOneOwner rest (serve prisma auth request db).1 org
        (serve-One org auth request db one).holds
