-- ===== src/Members/Escalation.antt =====
-- Who may change a role, and to what.
use tasks_platform.Common.{
  ℕ, ◌≤◌, ◌<◌, ◌≡◌, ◌≢◌, ◌⊎◌, inl, inr, refl, ap, subst, true, false, Option, none, some, List,
  arith,
}
use tasks_platform.Authorization.Permissions.{
  Role, owner, admin, member, viewer, Permission, member_update_role, role_has_permission,
  role_rank, is_owner, can_manage_role, is_role_above,
}
use tasks_platform.Database.Schema.{Membership}
use tasks_platform.Database.Client.{Db, Prisma, ok, or_throw}
use tasks_platform.Database.Steps.{Ends, or_throw-then, refuse-then, ensure-then}
use tasks_platform.Database.Outcomes.{OnOk, Reads, reading_tells, known-then, ok-then}
use tasks_platform.Members.Repository.{membership_of, role_set, update_role_found}
use tasks_platform.Members.Gate.{
  AuthContext, user_auth, api_key_auth, MembershipContext, require_actor, require_user_actor,
}
use tasks_platform.Members.Service
use tasks_platform.Members.Controller.{Request, admit, serve}
use tasks_platform.Members.Admission.{
  Admitted, admit-Admitted, admit-reads, require_user_actor-reads,
}
use tasks_platform.Members.Transfer.{member_found}

-- Managing members takes an administrator or the owner, so no one can hand out more than their own role.
grants_within :
    (role new : Role)
    → role_has_permission role member_update_role ≡ true
    → is_owner new ≡ false
    → role_rank new ≤ role_rank role
unfolding role_has_permission
grants_within owner owner holds plain = omega arith
grants_within owner admin holds plain = omega arith
grants_within owner member holds plain = omega arith
grants_within owner viewer holds plain = omega arith
grants_within admin owner holds plain = absurd (cc)
grants_within admin admin holds plain = omega arith
grants_within admin member holds plain = omega arith
grants_within admin viewer holds plain = omega arith
grants_within member new holds plain = absurd (cc)
grants_within viewer new holds plain = absurd (cc)

-- Among those who are not the owner, one manages only those below.
manages_below :
    (role target : Role)
    → can_manage_role role target ≡ true
    → (role ≡ owner) ⊎ (role_rank target < role_rank role)
unfolding can_manage_role is_role_above
manages_below owner target may = inl refl
manages_below admin target may = inr (ground arith)
manages_below member target may = inr (ground arith)
manages_below viewer target may = inr (ground arith)

module _ (prisma : Prisma) where
  open prisma use {tables}

  -- What the gate and the actor of a member's request are.
  abbrev Manager :
      Db tables → Option AuthContext → ℕ → Permission → MembershipContext → ℕ × Role → Type 0
  Manager db auth organization_id permission m actor =
      (row : Membership) × (auth ≡ some (user_auth actor.0))
      × (tables.membership.find_first (membership_of actor.0 organization_id) db.memberships
          ≡ some row)
      × (actor.1 ≡ row.role)
      × (role_has_permission row.role permission ≡ true)
      × (m.organization_id ≡ organization_id)

  require_user_actor_user :
      (id : ℕ) (m : MembershipContext) (role : Role) (db : Db tables)
      → m.role ≡ some role
      → require_user_actor (some (user_auth id)) (some m) db ≡ (ok (id, role), db)
  unfolding require_user_actor require_actor or_throw
  require_user_actor_user id m role db e = rw e refl

  no_key_acts :
      (id key_org : ℕ) (scopes : List Permission) (m : MembershipContext) (db after : Db tables)
      (actor : ℕ × Role)
      → require_user_actor (some (api_key_auth id key_org scopes)) (some m) db ≡ (ok actor, after)
      → ⊥
  unfolding require_user_actor require_actor
  no_key_acts id key_org scopes m db after actor e = absurd (cc)

  acting_user :
      (a : AuthContext) (organization_id : ℕ) (permission : Permission) (db after : Db tables)
      (m : MembershipContext) (actor : ℕ × Role)
      → Admitted prisma db a organization_id permission m
      → require_user_actor (some a) (some m) db ≡ (ok actor, after)
      → Manager db (some a) organization_id permission m actor
  acting_user (api_key_auth id key_org scopes) org p db after m actor admitted e =
      absurd (no_key_acts id key_org scopes m db after actor e)
  acting_user (user_auth id) org p db after m actor (row, found, holds, is) e =
      let same : (id, row.role) ≡ actor =
        cc (require_user_actor_user id m row.role db (ap (λ c. c.role) is), e) in
      subst (Manager db (some (user_auth id)) org p m) same
        (row, refl, found, refl, holds, ap (λ c. c.organization_id) is)

  -- What a change of role that went through has done.
  abbrev pub RoleChanged : Option AuthContext → ℕ → ℕ → Role → Db tables → Db tables → Type 0
  RoleChanged auth organization_id target_user_id new_role db after =
      (user_id : ℕ) × (actor : Membership) × (target : Membership) × (auth
        ≡ some (user_auth user_id))
      × (tables.membership.find_first (membership_of user_id organization_id) db.memberships
          ≡ some actor)
      × (tables.membership.find_first (membership_of target_user_id organization_id) db.memberships
          ≡ some target)
      × (target.role ≢ owner)
      × (new_role ≢ owner)
      × ((actor.role ≡ owner) ⊎ (role_rank target.role < role_rank actor.role))
      × (role_rank new_role ≤ role_rank actor.role)
      × (after ≡ record db { memberships = role_set tables target.id new_role db.memberships })

  admit-Admits :
      (auth : Option AuthContext) (organization_id : ℕ) (permission : Permission) (db : Db tables)
      → Ends
          (Reads db (λ m.
            (a : AuthContext) × (auth ≡ some a)
            × Admitted prisma db a organization_id permission m))
          (admit prisma auth organization_id permission db)
  admit-Admits auth org p db = reading_tells _ (admit-reads prisma auth org p db) λ m after e.
      let (a, is, _, admitted) = admit-Admitted prisma auth org p db after m e in (a, is, admitted)

  acts_as_Manager :
      (a : AuthContext) (organization_id : ℕ) (permission : Permission) (db : Db tables)
      (m : MembershipContext)
      → Admitted prisma db a organization_id permission m
      → Ends
          (Reads db (Manager db (some a) organization_id permission m))
          (require_user_actor (some a) (some m) db)
  acts_as_Manager a org p db m admitted =
      reading_tells _ (require_user_actor-reads prisma (some a) (some m) db)
        λ actor after e. acting_user a org p db after m actor admitted e

  update_role-Done :
      (organization_id : ℕ) (actor_role : Role) (target_user_id : ℕ) (new_role : Role)
      (db : Db tables)
      → Ends
          (OnOk (λ _ after.
            (target : Membership) × (tables.membership.find_first
                (membership_of target_user_id organization_id)
                db.memberships
              ≡ some target)
            × (is_owner target.role ≡ false)
            × (is_owner new_role ≡ false)
            × (can_manage_role actor_role target.role ≡ true)
            × (after
                ≡ record db { memberships = role_set tables target.id new_role db.memberships })))
          (Service.update_role prisma organization_id actor_role target_user_id new_role db)
  unfolding Service.update_role Service.require_membership_by_user Service.assert_can_manage
  update_role-Done org actor_role user_id new_role db =
      or_throw-then db _ _ _ (λ _. record { holds = tt })
        λ target found.
          refuse-then db _ _ _ (λ _. record { holds = tt })
            λ plain.
              refuse-then db _ _ _ (λ _. record { holds = tt })
                λ new_plain.
                  ensure-then db _ _ _ (λ _. record { holds = tt })
                    λ may.
                      rw
                        (update_role_found tables target.id new_role db
                          (member_found prisma user_id org db found).1)
                        (record { holds = (target, found, plain, new_plain, may, refl) })

  -- A request that changes a role and succeeds was made by a user, not by a key, whose membership of the
  -- organization ranks above the target's or is the owner's; the target was not the owner and has not become
  -- it; the new role is no higher than the caller's own; and just that role was changed.
  pub serve-update_role-RoleChanged :
      (auth : Option AuthContext) (organization_id target_user_id : ℕ) (new_role : Role)
      (db : Db tables)
      → Ends
          (OnOk (λ _ after. RoleChanged auth organization_id target_user_id new_role db after))
          (serve prisma auth (Request.update_role organization_id target_user_id new_role) db)
  unfolding serve
  serve-update_role-RoleChanged none org target_user new db =
      known-then _ _ (admit-Admits none org member_update_role db) (λ _. record { holds = tt })
        λ (m : MembershipContext) (a, never, _). absurd (cc)
  serve-update_role-RoleChanged (some auth) org target_user new db =
      known-then _ _ (admit-Admits (some auth) org member_update_role db)
        (λ _. record { holds = tt })
        λ (m : MembershipContext) (a, is, admitted).
          known-then _ _
            (acts_as_Manager auth org member_update_role db m
              (subst (λ b. Admitted prisma db b org member_update_role m) (cc is) admitted))
            (λ _. record { holds = tt })
            λ (actor : ℕ × Role) (row, who, found, role_is, holds, org_is).
              ok-then _ _ (update_role-Done m.organization_id actor.1 target_user new db)
                λ _ after (target, there, plain, new_plain, may, same). record {
                  holds = (
                    actor.0,
                    row,
                    target,
                    who,
                    found,
                    subst
                        (λ o.
                          tables.membership.find_first (membership_of target_user o) db.memberships
                          ≡ some target)
                        org_is there,
                    ground arith,
                    ground arith,
                    manages_below row.role target.role
                        (subst (λ r. can_manage_role r target.role ≡ true) role_is may),
                    grants_within row.role new holds new_plain,
                    same,
                  );
                }
