-- ===== src/Comments/Entry.antt =====
-- What the middlewares in front of the operations on comments have found out.
use tasks_platform.Common.{
  ℕ, ◌≡◌, ◌⊎◌, inl, inr, refl, sym, ap, subst, true, Option, none, some, arith, Bool-cases, ==_iff,
  is_id,
}
use tasks_platform.Authorization.Permissions.{
  includes, role_has_permission, comment_delete_any, comment_delete_own,
}
use tasks_platform.Authorization.Actor.{
  Actor, user, api_key, actor_has_permission, can_actor_act_on_resource,
}
use tasks_platform.Database.Schema.{Membership, Task}
use tasks_platform.Database.Integrations.{Comment}
use tasks_platform.Database.Client.{Db, Prisma, pure, or_throw, ok}
use tasks_platform.Database.Steps.{Ends, ensure-then, or_throw-then}
use tasks_platform.Database.Outcomes.{Reads, known-then, refused, or_throw-Reads, weaken_outcome}
use tasks_platform.Members.Gate.{
  AuthContext, user_auth, api_key_auth, MembershipContext, of_membership, require_membership,
  require_actor, require_user_id, find_organization, resolve,
}
use tasks_platform.Members.Repository as Members
use tasks_platform.Members.Repository.{membership_of}
use tasks_platform.Tasks.Controller.{enter}
use tasks_platform.Tasks.Invariant.{require_project-Reads, require_task-Reads}
use tasks_platform.Comments.Service
use tasks_platform.Comments.Service.{
  live_comment, is_own_comment, edited, deleted, comment_row, comment_entry,
}
use tasks_platform.Comments.Controller.{require_comment, enter_comments}

pub is_author : (o : Option ℕ) (id : ℕ) → is_id o id ≡ true → o ≡ some id
is_author none id h = absurd (cc)
is_author (some a) id h = ap some ((==_iff a id).0 h)

module _ (prisma : Prisma) where
  open prisma use {tables}

  -- A key of the organization, or a user with a membership of it.
  abbrev pub Entered : Db tables → Option AuthContext → ℕ → MembershipContext → Type 0
  Entered db none organization_id m = ⊥
  Entered db (some (api_key_auth id key_organization_id scopes)) organization_id m =
      key_organization_id ≡ organization_id
  Entered db (some (user_auth id)) organization_id m =
      (row : Membership) × (tables.membership.find_first (membership_of id organization_id)
          db.memberships
        ≡ some row)
      × (m ≡ of_membership organization_id row)

  -- Who may remove a comment: a key of the organization with the scope, or a member of it who wrote the
  -- comment or whose role holds the permission.
  abbrev pub MayRemove : Db tables → Option AuthContext → ℕ → Comment → Type 0
  MayRemove db none organization_id comment = ⊥
  MayRemove db (some (api_key_auth id key_organization_id scopes)) organization_id comment =
      (key_organization_id ≡ organization_id) × (includes scopes comment_delete_any ≡ true)
  MayRemove db (some (user_auth id)) organization_id comment =
      (row : Membership) × (tables.membership.find_first (membership_of id organization_id)
          db.memberships
        ≡ some row)
      × ((role_has_permission row.role comment_delete_any ≡ true) ⊎ (comment.author_id ≡ some id))

  require_membership-Entered :
      (auth : Option AuthContext) (organization_id : ℕ) (db : Db tables)
      → Ends
          (Reads db (Entered db auth organization_id))
          (require_membership auth organization_id db)
  unfolding require_membership find_organization resolve Members.find_by_user_and_organization
  require_membership-Entered none org db = refused
  require_membership-Entered (some (api_key_auth id key_org scopes)) org db =
      or_throw-then db _ _ _ (λ _. refused)
        λ organization _.
          ensure-then db _ _ _ (λ _. refused) λ same. record { holds = (refl, (==_iff _ _).0 same) }
  require_membership-Entered (some (user_auth id)) org db =
      or_throw-then db _ _ _ (λ _. refused)
        λ organization _.
          or_throw-then db _ _ _ (λ _. refused)
            λ row found. record { holds = (refl, (row, found, refl)) }

  -- The comment that a handler is given is the stored one.
  pub require_comment-Reads :
      (comment_id : ℕ) (task : Task) (db : Db tables)
      → Ends
          (Reads db (λ comment. tables.comment.get comment.id db.comments ≡ some comment))
          (require_comment prisma comment_id task db)
  unfolding require_comment Service.find_by_id
  require_comment-Reads comment_id task db =
      weaken_outcome (or_throw _ _ db) (or_throw-Reads db _ _) λ comment after (same, found).
        (same, (tables.comment.find_first-some _ db.comments comment found).1)

  pub require_user_id-Reads :
      (auth : Option AuthContext) (db : Db tables)
      → Ends (Reads db (λ id. auth ≡ some (user_auth id))) (require_user_id auth db)
  unfolding require_user_id
  require_user_id-Reads none db = refused
  require_user_id-Reads (some (api_key_auth id org scopes)) db = refused
  require_user_id-Reads (some (user_auth id)) db = record { holds = (refl, refl) }

  enter-Entered :
      (auth : Option AuthContext) (organization_id project_id : ℕ) (db : Db tables)
      → Ends
          (Reads db (λ entered. Entered db auth organization_id entered.0))
          (enter prisma auth organization_id project_id db)
  unfolding enter
  enter-Entered auth org project_id db =
      known-then _ _ (require_membership-Entered auth org db) (λ _. refused)
        λ (m : MembershipContext) entered.
          known-then _ (λ project. pure (m, project))
            (require_project-Reads prisma project_id m.organization_id db) (λ _. refused)
            λ project _. record { holds = (refl, entered) }

  -- `requireMembership`, `requireProject` and `requireTask`
  pub enter_comments-Entered :
      (auth : Option AuthContext) (organization_id project_id task_id : ℕ) (db : Db tables)
      → Ends
          (Reads db (λ entered. Entered db auth organization_id entered.0))
          (enter_comments prisma auth organization_id project_id task_id db)
  unfolding enter_comments
  enter_comments-Entered auth org project_id task_id db =
      known-then _ _ (enter-Entered auth org project_id db) (λ _. refused)
        λ entered is_in.
          known-then _ (λ task. pure (entered.0, task))
            (require_task-Reads prisma task_id entered.1 db) (λ _. refused)
            λ task _. record { holds = (refl, is_in) }

  pub may_remove :
      (auth : Option AuthContext) (org : ℕ) (m : MembershipContext) (actor : Actor)
      (comment : Comment) (db d : Db tables)
      → Entered db auth org m
      → require_actor auth (some m) db ≡ (ok actor, d)
      → can_actor_act_on_resource actor comment_delete_any comment_delete_own
          (is_own_comment comment actor)
        ≡ true
      → MayRemove db auth org comment
  unfolding require_actor or_throw can_actor_act_on_resource actor_has_permission
  may_remove none org m actor comment db d entered e allowed = absurd entered
  may_remove (some (api_key_auth id key_org scopes)) org m actor comment db d entered e allowed =
      let same : api_key id scopes ≡ actor = ground arith in
      let can =
        subst
          (λ a.
            can_actor_act_on_resource a comment_delete_any comment_delete_own
              (is_own_comment comment a)
            ≡ true)
          (sym same) allowed in
      (entered, ground arith)
  may_remove (some (user_auth id)) org m actor comment db d (row, found, is) e allowed =
      let same : user id row.role ≡ actor =
        ground (arith, ap (λ c. require_actor {t = tables} (some (user_auth id)) (some c) db) is) in
      let can =
        subst
          (λ a.
            can_actor_act_on_resource a comment_delete_any comment_delete_own
              (is_own_comment comment a)
            ≡ true)
          (sym same) allowed in
      (
        row,
        found,
        elim (Bool-cases (role_has_permission row.role comment_delete_any)) [
          | inl holds ↦ inl holds
          | inr lacks ↦ inr (is_author comment.author_id id (ground arith))
        ],
      )
