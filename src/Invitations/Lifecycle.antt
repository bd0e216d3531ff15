-- ===== src/Invitations/Lifecycle.antt =====
-- The requests about invitations (apps/api/src/modules/invitations) follow the state machine of Machine.
use tasks_platform.Common.{
  ℕ, ◌≡◌, refl, sym, subst, String, true, false, Option, none, some, List, [], ◌∷◌, arith,
}
use tasks_platform.Authorization.Permissions.{Role, invitation_create, invitation_revoke}
use tasks_platform.Database.Table.{updated-some}
use tasks_platform.Database.Schema.{User, Invitation, is_pending}
use tasks_platform.Database.Client.{Tables, Db, Prisma, Result, ok, err, pure, ◌>>◌}
use tasks_platform.Database.Steps.{
  Ends, refuse-then, ensure-then, or_throw-then, reads-then, replaced-then, held-then,
}
use tasks_platform.Database.Outcomes.{
  stored-then, changed_last, keep_through, Reads, known-then, refuse_last, weaken_outcome,
  or_throw-Reads,
}
use tasks_platform.Members.Repository as Members
use tasks_platform.Members.Gate.{
  AuthContext, MembershipContext, require_user_actor, require_user_id, find_organization,
}
use tasks_platform.Members.Controller.{admit}
use tasks_platform.Members.Admission.{admit-reads, require_user_actor-reads, require_user_id-reads}
use tasks_platform.Invitations.Controller.{Draws, Request, serve, serve_all}
use tasks_platform.Accounts.Users.{get_by_id, find_user, find_by_email}
use tasks_platform.Invitations.Repository
use tasks_platform.Invitations.Repository.{accepted, revoked}
use tasks_platform.Invitations.Service
use tasks_platform.Invitations.Acceptance.{accepted-Keeps, accept-Accepted}
use tasks_platform.Invitations.Machine.{
  accepting, revoking, Reach, here, Reach-trans, Reach-settled, Moves, Moves-refl, revoked-Keeps,
  updated-Moves, created-Moves, unmoved,
}

opened :
    (o : Option Invitation) (r : Invitation)
    → Service.open_invitation o ≡ some r
    → (o ≡ some r) × (is_pending r ≡ true)
opened none r e = absurd (cc)
opened (some x) r e = (ground arith, ground arith)

get_by_id-Reads :
    {t : Tables} (id : ℕ) (db : Db t) → Ends (Reads db (λ _. Unit {0})) (get_by_id id db)
unfolding get_by_id find_user
get_by_id-Reads id db = weaken_outcome _ (or_throw-Reads db _ _) λ _ after (same, _). (same, tt)

module _ (t : Tables) where
  -- Retiring a pending invitation.
  revoke-Moves :
      (now : ℕ) (r : Invitation) (db : Db t)
      → t.invitation.get r.id db.invitations ≡ some r
      → is_pending r ≡ true
      → Ends (λ o. Moves t db o.1) (Repository.revoke now r.id db)
  unfolding Repository.revoke
  revoke-Moves now r db there pending =
      changed_last db _ _ (λ _. unmoved t db db (Moves-refl t db))
        λ a rows e.
          let (x, there', is, same) =
            updated-some t.invitation r.id (revoked now) db.invitations (revoked-Keeps t now) e in
          record {
            holds =
                updated-Moves t (revoked now) db db r rows (revoked-Keeps t now) (Moves-refl t db)
                  there (revoking r now pending) same;
          }

  retire_expired-Moves :
      (organization_id : ℕ) (email : String) (now : ℕ) (o : Option Invitation) (db : Db t)
      → t.invitation.find_first (Repository.pending_for organization_id email) db.invitations ≡ o
      → Ends (λ r. Moves t db r.1) (Service.retire_expired now o db)
  unfolding Service.retire_expired
  retire_expired-Moves org email now none db e = unmoved t db db (Moves-refl t db)
  retire_expired-Moves org email now (some pending) db e =
      let (meets, there) = t.invitation.find_first-some _ db.invitations pending e in
      refuse-then db _ _ _ (λ _. unmoved t db db (Moves-refl t db))
        λ expired.
          replaced-then (λ d. Moves t db d) db (Repository.revoke now pending.id) tt
            (revoke-Moves now pending db there (ground arith)).holds

  refuse_member-Reads :
      (organization_id : ℕ) (o : Option User) (db : Db t)
      → Ends (Reads db (λ _. Unit {0})) (Service.refuse_member organization_id o db)
  unfolding Service.refuse_member Members.find_by_user_and_organization
  refuse_member-Reads org none db = record { holds = (refl, tt) }
  refuse_member-Reads org (some user) db =
      refuse_last db _ _ (λ _. record { holds = refl }) (λ _. record { holds = (refl, tt) })

  queue_end :
      (queued : Result (Unit {0})) (invitation : Invitation) (db d : Db t)
      → Moves t db d
      → Ends (λ r. Moves t db r.1) (((λ (x : Db t). (queued, x)) >> pure invitation) d)
  queue_end (ok done) invitation db d before = record { holds = before }
  queue_end (err e) invitation db d before = record { holds = before }

  create-Moves :
      (queued : Result (Unit {0})) (now id : ℕ) (token_hash : String)
      (organization_id invited_by_id : ℕ) (inviter_role : Role) (email : String) (role : Role)
      (db : Db t)
      → Ends
          (λ r. Moves t db r.1)
          (Service.create queued now id token_hash organization_id invited_by_id inviter_role email
            role db)
  unfolding Service.create find_by_email Repository.find_pending_by_organization_and_email
      find_organization find_user Repository.create
  create-Moves queued now id token_hash org inviter inviter_role email role db =
      refuse-then db _ _ _ (λ _. unmoved t db db (Moves-refl t db))
        λ plain.
          ensure-then db _ _ _ (λ _. unmoved t db db (Moves-refl t db))
            λ may.
              known-then _ _ (refuse_member-Reads org _ db) (λ _. unmoved t db db (Moves-refl t db))
                λ _ _.
                  held-then (λ d. Moves t db d) _ _ (retire_expired-Moves org email now _ db refl)
                    λ _ d before.
                      ensure-then d _ _ _ (λ _. unmoved t db d before)
                        λ _.
                          stored-then d _ _ _ _ (λ _. unmoved t db d before)
                            λ rows e.
                              queue_end queued _ db _
                                (created-Moves t db d _ rows before refl (ground arith) e)

  revoke_service-Moves :
      (now organization_id invitation_id : ℕ) (db : Db t)
      → Ends (λ r. Moves t db r.1) (Service.revoke now organization_id invitation_id db)
  unfolding Service.revoke Repository.find_by_id
  revoke_service-Moves now org id db =
      or_throw-then db _ _ _ (λ _. unmoved t db db (Moves-refl t db))
        λ r e.
          let (found, pending) = opened _ r e in
          let (_, there) = t.invitation.find_first-some _ db.invitations r found in
          replaced-then (λ d. Moves t db d) db (Repository.revoke now r.id) tt
            (revoke-Moves now r db there pending).holds

module _ (prisma : Prisma) where
  open prisma use {tables}

  accept-Moves :
      (now id : ℕ) (token_hash : String) (user_id : ℕ) (user_email : String) (db : Db tables)
      → Ends
          (λ r. Moves tables db r.1)
          (Service.accept prisma now id token_hash user_id user_email db)
  accept-Moves now id token_hash user_id user_email db =
      keep_through (λ d. Moves tables db d) _
        (accept-Accepted prisma now id token_hash user_id user_email db) (Moves-refl tables db)
        λ _ after (x, found, may, (rows, e, is)).
          let (_, there) = tables.invitation.find_first-some _ db.invitations x found in
          subst (λ (d : Db tables). Moves tables db d) (sym is)
            (updated-Moves tables (accepted now) db db x _ (accepted-Keeps tables now)
              (Moves-refl tables db) there
              (accepting x now (rw (may.not_accepted, may.not_revoked) refl) may.not_expired
                may.not_owner)
              refl)

  -- A request changes the invitations along the state machine.
  serve-Moves :
      (draws : Draws) (auth : Option AuthContext) (request : Request) (db : Db tables)
      → Ends (λ r. Moves tables db r.1) (serve prisma draws auth request db)
  unfolding serve
  serve-Moves draws auth (Request.create org email role) db =
      reads-then db (admit prisma auth org invitation_create) _
        (admit-reads prisma auth org invitation_create db)
        (λ e _. unmoved tables db db (Moves-refl tables db))
        λ (m : MembershipContext) _.
          reads-then db (require_user_actor auth (some m)) _
            (require_user_actor-reads prisma auth (some m) db)
            (λ e _. unmoved tables db db (Moves-refl tables db))
            λ (inviter : ℕ × Role) _.
              held-then (λ d. Moves tables db d) _ _
                (create-Moves tables draws.queued draws.now draws.id draws.token_hash
                  m.organization_id inviter.0 inviter.1 email role db)
                (λ _ d before. unmoved tables db d before)
  serve-Moves draws auth (Request.revoke org id) db =
      reads-then db (admit prisma auth org invitation_revoke) _
        (admit-reads prisma auth org invitation_revoke db)
        (λ e _. unmoved tables db db (Moves-refl tables db))
        λ (m : MembershipContext) _. revoke_service-Moves tables draws.now m.organization_id id db
  serve-Moves draws auth (Request.accept token_hash) db =
      reads-then db (require_user_id auth) _ (require_user_id-reads prisma auth db)
        (λ e _. unmoved tables db db (Moves-refl tables db))
        λ user_id _.
          known-then _ _ (get_by_id-Reads user_id db)
            (λ _. unmoved tables db db (Moves-refl tables db))
            λ user _. accept-Moves draws.now draws.id token_hash user_id user.email db

  -- Through any history of requests, whoever makes them and whatever becomes of each, an invitation
  -- goes the way of the state machine: it is issued pending, and from pending it is accepted, before it
  -- expires, or revoked, after which it does not change.
  pub serve_all-Reach :
      (requests : List (Draws × Option AuthContext × Request)) (db : Db tables) (k : ℕ)
      → Reach
          (tables.invitation.get k db.invitations)
          (tables.invitation.get k (serve_all prisma requests db).invitations)
  unfolding serve_all
  serve_all-Reach [] db k = here
  serve_all-Reach ((draws, auth, request) ∷ rest) db k =
      Reach-trans ((serve-Moves draws auth request db).holds k) (serve_all-Reach rest _ k)

  -- An invitation that was accepted or revoked stays as it is through any history of requests.
  pub serve_all_settled :
      (requests : List (Draws × Option AuthContext × Request)) (db : Db tables) (k : ℕ)
      (r : Invitation)
      → tables.invitation.get k db.invitations ≡ some r
      → is_pending r ≡ false
      → tables.invitation.get k (serve_all prisma requests db).invitations ≡ some r
  serve_all_settled requests db k r e settled =
      Reach-settled r settled e (serve_all-Reach requests db k)
