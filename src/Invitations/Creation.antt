-- ===== src/Invitations/Creation.antt =====
-- What an invitation that is issued comes to, and what an accepted one does to the owners.
use tasks_platform.Common.{
  ℕ, ◌≡◌, subst, sym, String, true, false, Option, none, some, ltb, str_eq, ◌==◌,
}
use tasks_platform.Authorization.Permissions.{Role, can_grant_role}
use tasks_platform.Database.Schema.{User, Invitation}
use tasks_platform.Database.Client.{Tables, Db, Prisma, err}
use tasks_platform.Database.Steps.{Ends}
use tasks_platform.Database.Outcomes.{OnOk, keep_through}
use tasks_platform.Members.Repository as Members
use tasks_platform.Members.Repository.{membership_of}
use tasks_platform.Members.Ownership.{HasOneOwner, HasOneOwner-of_KeepsOwners, added-KeepsOwners}
use tasks_platform.Invitations.Acceptance.{accept-Accepted}
use tasks_platform.Invitations.Repository
use tasks_platform.Invitations.Repository.{revoked, pending_for}
use tasks_platform.Invitations.Service
use tasks_platform.Invitations.Service.{invitation_row, joined_member}

abbrev failed :
    {t : Tables} {A : Type 0} {P : A → Db t → Type 0} {e : _} {db : Db t}
    → Ends (OnOk P) (err e, db)
failed = record { holds = tt }

module _ (t : Tables) where
  -- The user who has the address already, if there is one, is no member.
  abbrev pub Outsider : ℕ → Option User → Db t → Type 0
  Outsider organization_id none db = Unit {0}
  Outsider organization_id (some user) db =
      t.membership.find_first (membership_of user.id organization_id) db.memberships ≡ none

  -- No invitation for the address was pending, or it had expired and is revoked.
  abbrev pub Retired : ℕ → Option Invitation → Db t → t.invitation.Rows → Type 0
  Retired now none db rows = rows ≡ db.invitations
  Retired now (some pending) db rows =
      (ltb now pending.expires_at ≡ false)
      × (rows ≡ t.invitation.update_many (λ x. x.id == pending.id) (revoked now) db.invitations)

  -- What an invitation that was created is, and what else has changed.
  abbrev pub Invited :
      ℕ → ℕ → String → ℕ → ℕ → Role → String → Role → Db t → Invitation → Db t → Type 0
  Invited now id token_hash organization_id invited_by_id inviter_role email role db invitation
        after =
      (retired : t.invitation.Rows) × (rows : t.invitation.Rows) × (can_grant_role inviter_role role
        ≡ true)
      × Outsider organization_id (t.user.find_first (λ user. str_eq user.email email) db.users) db
      × Retired now (t.invitation.find_first (pending_for organization_id email) db.invitations) db
          retired
      × (invitation ≡ invitation_row now id token_hash organization_id email role invited_by_id)
      × (t.invitation.create invitation retired ≡ some rows)
      × (after ≡ record db { invitations = rows })

module _ (prisma : Prisma) where
  open prisma use {tables}

  -- Whoever accepts whichever invitation, an organization that had exactly one owner has exactly one.
  accept-HasOneOwner :
      (now id : ℕ) (token_hash : String) (user_id : ℕ) (user_email : String) (db : Db tables)
      (organization_id : ℕ)
      → HasOneOwner tables organization_id db.memberships
      → HasOneOwner tables organization_id
          (Service.accept prisma now id token_hash user_id user_email db).1.memberships
  accept-HasOneOwner now id token_hash user_id user_email db org one =
      (keep_through (λ d. HasOneOwner tables org d.memberships) _
        (accept-Accepted prisma now id token_hash user_id user_email db) one
        λ _ after (x, found, may, (rows, e, is)).
          subst (λ (d : Db tables). HasOneOwner tables org d.memberships) (sym is)
            (HasOneOwner-of_KeepsOwners tables org db.memberships rows
              (added-KeepsOwners tables (joined_member now id user_id x) db.memberships rows
                may.not_owner e)
              one)).holds
