-- ===== src/Invitations/Service.antt =====
-- apps/api/src/modules/invitations/invitations.service.ts. The new token's hash, the keys of new rows, the
-- time and what queueing the email comes to are arguments. A link carries a token; a service takes its hash.
use tasks_platform.Common.{
  ℕ, ◌+◌, ◌*◌, String, ◌&&◌, ◌||◌, Option, none, some, str_eq, ltb, is_some, if◌then◌else◌,
}
use tasks_platform.Errors.{AppError, conflict, forbidden, not_found, unprocessable_entity}
use tasks_platform.Authorization.Permissions.{Role, is_owner, can_grant_role}
use tasks_platform.Database.Schema.{User, Invitation, Membership}
use tasks_platform.Database.Client.{
  Tables, Prisma, Result, Action, pure, refuse, ensure, or_throw, ◌>>=◌, ◌>>◌,
}
use tasks_platform.Members.Repository as Members
use tasks_platform.Members.Gate.{find_organization}
use tasks_platform.Accounts.Users.{find_by_email, find_user}
use tasks_platform.Accounts.Tokens.{mark_email_verified}
use tasks_platform.Invitations.Repository
use tasks_platform.Invitations.Repository.{InvitationPreview}

abbrev pub invitation_token_ttl_days : ℕ
invitation_token_ttl_days = 7

abbrev pub expiry_date : ℕ → ℕ
expiry_date now = now + invitation_token_ttl_days * 24 * 60 * 60 * 1000

abbrev pub invitation_row : ℕ → ℕ → String → ℕ → String → Role → ℕ → Invitation
invitation_row now id token_hash organization_id email role invited_by_id = record {
  id = id;
  organization_id = organization_id;
  email = email;
  role = role;
  token_hash = token_hash;
  invited_by_id = invited_by_id;
  expires_at = expiry_date now;
  accepted_at = none;
  revoked_at = none;
  created_at = now;
}

abbrev pub joined_member : ℕ → ℕ → ℕ → Invitation → Membership
joined_member now id user_id invitation = record {
  id = id;
  user_id = user_id;
  organization_id = invitation.organization_id;
  role = invitation.role;
  joined_at = now;
}

-- `!found || found.entity.acceptedAt || found.entity.revokedAt || found.entity.expiresAt < new Date()`,
-- and what is left otherwise
abbrev pub showable : ℕ → Option (InvitationPreview × Invitation) → Option InvitationPreview
showable now none = none
showable now (some (preview, invitation)) =
    if is_some invitation.accepted_at
      || is_some invitation.revoked_at
      || ltb invitation.expires_at now
    then none
    else some preview

-- `!invitation || invitation.acceptedAt || invitation.revokedAt`
abbrev pub open_invitation : Option Invitation → Option Invitation
open_invitation none = none
open_invitation (some invitation) =
    if is_some invitation.accepted_at || is_some invitation.revoked_at
    then none
    else some invitation

abbrev pub missing_invitation : AppError
missing_invitation = not_found (some "Invitation not found")

module _ {t : Tables} where
  -- The check of `create` on a user who has the address already.
  unfoldable pub refuse_member : ℕ → Option User → Action t (Unit {0})
  refuse_member organization_id none = pure tt
  refuse_member organization_id (some existing_user) = do
    membership ← Members.find_by_user_and_organization existing_user.id organization_id
    refuse (is_some membership)
        (conflict (some "This person is already a member of the organization"))

  -- The check of `create` on an invitation that is pending: one that has expired is retired.
  unfoldable pub retire_expired : ℕ → Option Invitation → Action t (Unit {0})
  retire_expired now none = pure tt
  retire_expired now (some pending) = do
    refuse (ltb now pending.expires_at)
        (conflict (some "There is already a pending invitation for this email"))
    Repository.revoke now pending.id
    pure tt

  unfoldable pub create :
      Result (Unit {0}) → ℕ → ℕ → String → ℕ → ℕ → Role → String → Role → Action t Invitation
  create queued now id token_hash organization_id invited_by_id inviter_role email role = do
    refuse (is_owner role)
        (conflict (some "Use the transfer-ownership endpoint to change the organization owner"))
    ensure (can_grant_role inviter_role role)
        (forbidden (some "You cannot invite someone to a role above your own"))
    existing_user ← find_by_email email
    refuse_member organization_id existing_user
    pending ← Repository.find_pending_by_organization_and_email organization_id email
    retire_expired now pending
    organization ← find_organization organization_id
    invited_by ← find_user invited_by_id
    ensure (is_some organization && is_some invited_by)
        (unprocessable_entity (some "Organization or inviter no longer exists"))
    invitation ←
        Repository.create
          (invitation_row now id token_hash organization_id email role invited_by_id)
    λ db. (queued, db)
    pure invitation

  unfoldable pub revoke : ℕ → ℕ → ℕ → Action t (Unit {0})
  revoke now organization_id invitation_id = do
    found ← Repository.find_by_id invitation_id organization_id
    invitation ← or_throw (open_invitation found) missing_invitation
    Repository.revoke now invitation.id
    pure tt

  unfoldable pub preview : ℕ → String → Action t InvitationPreview
  preview now token_hash = do
    found ← Repository.find_preview_by_token_hash token_hash
    or_throw (showable now found) missing_invitation

  -- The block of the transaction in `accept`.
  unfoldable pub admit_invited : ℕ → ℕ → ℕ → Invitation → Action t (Unit {0})
  admit_invited now id user_id invitation = do
    Members.create (joined_member now id user_id invitation)
    Repository.mark_accepted now invitation.id
    mark_email_verified user_id now

module _ (prisma : Prisma) where
  unfoldable pub accept : ℕ → ℕ → String → ℕ → String → Action prisma.tables (Unit {0})
  accept now id token_hash user_id user_email = do
    found ← Repository.find_by_token_hash token_hash
    invitation ← or_throw found missing_invitation
    refuse (is_some invitation.revoked_at) (conflict (some "Invitation has been revoked"))
    refuse (is_some invitation.accepted_at) (conflict (some "Invitation has already been accepted"))
    refuse (ltb invitation.expires_at now) (conflict (some "Invitation has expired"))
    refuse (is_owner invitation.role) (conflict (some "This invitation is no longer valid"))
    ensure (str_eq invitation.email user_email)
        (forbidden (some "This invitation was sent to a different email address"))
    existing ← Members.find_by_user_and_organization user_id invitation.organization_id
    refuse (is_some existing) (conflict (some "You are already a member of this organization"))
    prisma.transaction (Unit {0}) (admit_invited now id user_id invitation)
