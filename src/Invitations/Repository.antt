-- ===== src/Invitations/Repository.antt =====
-- apps/api/src/modules/invitations/invitations.repository.ts: the queries on the invitations. The time at
-- which a query runs is an argument.
use tasks_platform.Common.{ℕ, String, Bool, ◌&&◌, Option, none, some, ◌==◌, str_eq, List, ltb, leb}
use tasks_platform.Authorization.Permissions.{Role}
use tasks_platform.Database.Schema.{User, Organization, Invitation, is_pending}
use tasks_platform.Database.Client.{
  Tables, Db, Result, Action, ok, err, stored, changed, prisma_error,
}

-- `{ organizationId, ...PENDING_WHERE, expiresAt: { gt: new Date() } }`
abbrev pub pending_at : ℕ → ℕ → Invitation → Bool
pending_at now organization_id invitation =
    invitation.organization_id == organization_id
    && is_pending invitation
    && ltb now invitation.expires_at

-- `{ organizationId, email, acceptedAt: null, revokedAt: null }`
abbrev pub pending_for : ℕ → String → Invitation → Bool
pending_for organization_id email invitation =
    invitation.organization_id == organization_id
    && str_eq invitation.email email
    && is_pending invitation

abbrev pub has_token_hash : String → Invitation → Bool
has_token_hash token_hash invitation = str_eq invitation.token_hash token_hash

abbrev pub in_organization : ℕ → ℕ → Invitation → Bool
in_organization id organization_id invitation =
    invitation.id == id && invitation.organization_id == organization_id

abbrev pub revoked : ℕ → Invitation → Invitation
revoked now invitation = record invitation { revoked_at = some now }

abbrev pub accepted : ℕ → Invitation → Invitation
accepted now invitation = record invitation { accepted_at = some now }

-- InvitationPreview
pub record InvitationPreview : Type 0 where
  pub organization_name : String
  pub invited_by_name : String
  pub role : Role

-- The two rows that the query joins; foreign keys see to it that they are there.
abbrev pub previewed :
    Invitation → Option Organization → Option User → Option (InvitationPreview × Invitation)
previewed invitation none invited_by = none
previewed invitation (some organization) none = none
previewed invitation (some organization) (some invited_by) = some (
  record {
    organization_name = organization.name;
    invited_by_name = invited_by.name;
    role = invitation.role;
  },
  invitation,
)

module _ {t : Tables} where
  unfoldable pub create : Invitation → Action t Invitation
  create row db =
      stored (t.invitation.create row db.invitations) (λ rows. record db { invitations = rows }) row
        db

  unfoldable pub find_pending_by_organization_and_email : ℕ → String → Action t (Option Invitation)
  find_pending_by_organization_and_email organization_id email db =
      (ok (t.invitation.find_first (pending_for organization_id email) db.invitations), db)

  unfoldable pub list_pending_by_organization : ℕ → ℕ → Action t (List Invitation)
  list_pending_by_organization now organization_id db = (
    ok (
        t.invitation.find_ordered (pending_at now organization_id)
          (λ a b. leb b.created_at a.created_at) db.invitations),
    db,
  )

  unfoldable pub find_by_id : ℕ → ℕ → Action t (Option Invitation)
  find_by_id id organization_id db =
      (ok (t.invitation.find_first (in_organization id organization_id) db.invitations), db)

  unfoldable pub find_by_token_hash : String → Action t (Option Invitation)
  find_by_token_hash token_hash db =
      (ok (t.invitation.find_first (has_token_hash token_hash) db.invitations), db)

  abbrev pub joined :
      Db t
      → Option (InvitationPreview × Invitation)
      → Result (Option (InvitationPreview × Invitation)) × Db t
  joined db none = (err prisma_error, db)
  joined db (some found) = (ok (some found), db)

  abbrev pub join_preview : Option Invitation → Action t (Option (InvitationPreview × Invitation))
  join_preview none db = (ok none, db)
  join_preview (some invitation) db = joined db (
      previewed invitation (t.organization.get invitation.organization_id db.organizations)
        (t.user.get invitation.invited_by_id db.users))

  unfoldable pub find_preview_by_token_hash :
      String → Action t (Option (InvitationPreview × Invitation))
  find_preview_by_token_hash token_hash db =
      join_preview (t.invitation.find_first (has_token_hash token_hash) db.invitations) db

  unfoldable pub revoke : ℕ → ℕ → Action t Invitation
  revoke now id db =
      changed (t.invitation.update id (revoked now) db.invitations)
        (λ rows. record db { invitations = rows }) db

  unfoldable pub mark_accepted : ℕ → ℕ → Action t Invitation
  mark_accepted now id db =
      changed (t.invitation.update id (accepted now) db.invitations)
        (λ rows. record db { invitations = rows }) db
