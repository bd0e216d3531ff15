-- ===== src/Invitations/Acceptance.antt =====
-- What accepting an invitation does, and that it does it once.
use tasks_platform.Common.{
  ℕ, ◌≡◌, ◌≢◌, refl, sym, ap, ◌∙◌, String, true, false, none, some, is_some, is_some-false, ltb,
  inl, inr, Option-cases, arith, eq_iff, ◌==◌, not, ◌&&◌,
}
use tasks_platform.Errors.{app, conflict}
use tasks_platform.Authorization.Permissions.{owner}
use tasks_platform.Database.Table.{Keeps, updated-some, found_updated}
use tasks_platform.Database.Schema.{Invitation, Invitation_clashes}
use tasks_platform.Database.Client.{Tables, Db, Prisma, ok, err, or_throw, refuse}
use tasks_platform.Database.Steps.{Ends, refuse-then, ensure-then, or_throw-then}
use tasks_platform.Database.Outcomes.{
  OnOk, Atomic, refused, atomically, weaken_outcome, stored-then, changed-then, atomic-ok,
}
use tasks_platform.Members.Repository as Members
use tasks_platform.Members.Repository.{membership_of}
use tasks_platform.Accounts.Tokens.{mark_email_verified}
use tasks_platform.Invitations.Repository
use tasks_platform.Invitations.Repository.{has_token_hash, accepted}
use tasks_platform.Invitations.Service
use tasks_platform.Invitations.Service.{joined_member, admit_invited}

accepted-clash :
    (now : ℕ) (r x : Invitation)
    → Invitation_clashes (accepted now r) x ≡ true
    → Invitation_clashes r x ≡ true
accepted-clash now r x h = ground arith

pub accepted-Keeps : (t : Tables) (now : ℕ) → Keeps t.invitation (accepted now)
accepted-Keeps t now = (λ r. refl, accepted-clash now)

module _ (prisma : Prisma) where
  open prisma use {tables}

  -- An invitation that `userId`, whose address is `userEmail`, may accept.
  pub record Acceptable (now : ℕ) (user_id : ℕ) (user_email : String) (db : Db tables)
      (invitation : Invitation) : Type 0 where
    pub not_revoked : invitation.revoked_at ≡ none
    pub not_accepted : invitation.accepted_at ≡ none
    pub not_expired : ltb invitation.expires_at now ≡ false
    pub not_owner : invitation.role ≢ owner
    pub addressed : invitation.email ≡ user_email
    pub not_member :
        tables.membership.find_first
          (membership_of user_id invitation.organization_id)
          db.memberships
        ≡ none

  -- What it becomes: a membership with the role that was offered, an accepted invitation and, unless it
  -- was before, a verified address.
  abbrev pub Joined : ℕ → ℕ → ℕ → Db tables → Invitation → Db tables → Type 0
  Joined now id user_id db invitation after =
      (rows : tables.membership.Rows) × (tables.membership.create
          (joined_member now id user_id invitation) db.memberships
        ≡ some rows)
      × (after ≡ record db {
        memberships = rows;
        invitations =
            tables.invitation.update_many (λ x. x.id == invitation.id) (accepted now)
              db.invitations;
        users =
            tables.user.update_many
              (λ user. user.id == user_id && not (is_some user.email_verified_at))
              (λ user. record user { email_verified_at = some now }) db.users;
      })

  admit_invited-Joined :
      (now id user_id : ℕ) (invitation : Invitation) (db : Db tables)
      → Ends
          (OnOk (λ _ after. Joined now id user_id db invitation after))
          (admit_invited now id user_id invitation db)
  unfolding admit_invited Members.create Repository.mark_accepted mark_email_verified
  admit_invited-Joined now id user_id invitation db =
      stored-then db _ _ _ _ (λ _. record { holds = tt })
        λ rows e.
          changed-then _ _ _ _ (λ _. record { holds = tt })
            λ a invitations changed.
              let (row, there, is, same) =
                updated-some tables.invitation invitation.id (accepted now) db.invitations
                  (accepted-Keeps tables now) changed in
              record {
                holds = (
                  rows,
                  e,
                  ap
                      (λ rows'. record db {
                        invitations = rows';
                        memberships = rows;
                        users =
                            tables.user.update_many
                              (λ user. user.id == user_id && not (is_some user.email_verified_at))
                              (λ user. record user { email_verified_at = some now }) db.users;
                      })
                      same,
                );
              }

  -- The invitation of a token, that it could be accepted, and what accepting it has done.
  abbrev pub Accepted : ℕ → ℕ → String → ℕ → String → Db tables → Db tables → Type 0
  Accepted now id token_hash user_id user_email db after =
      (invitation : Invitation) × (tables.invitation.find_first (has_token_hash token_hash)
          db.invitations
        ≡ some invitation)
      × Acceptable now user_id user_email db invitation
      × Joined now id user_id db invitation after

  pub accept-Accepted :
      (now id : ℕ) (token_hash : String) (user_id : ℕ) (user_email : String) (db : Db tables)
      → Ends
          (Atomic db (λ _ after. Accepted now id token_hash user_id user_email db after))
          (Service.accept prisma now id token_hash user_id user_email db)
  unfolding Service.accept Repository.find_by_token_hash Members.find_by_user_and_organization
  accept-Accepted now id token_hash user_id user_email db =
      or_throw-then db _ _ _ (λ _. refused)
        λ invitation found.
          refuse-then db _ _ _ (λ _. refused)
            λ h1.
              refuse-then db _ _ _ (λ _. refused)
                λ h2.
                  refuse-then db _ _ _ (λ _. refused)
                    λ h3.
                      refuse-then db _ _ _ (λ _. refused)
                        λ h4.
                          ensure-then db _ _ _ (λ _. refused)
                            λ h5.
                              refuse-then db _ _ _ (λ _. refused)
                                λ h6.
                                  weaken_outcome _
                                    (atomically prisma db _
                                      (admit_invited-Joined now id user_id invitation db))
                                    λ _ after done. (
                                      invitation,
                                      found,
                                      record {
                                        not_revoked = is_some-false _ h1;
                                        not_accepted = is_some-false _ h2;
                                        not_expired = h3;
                                        not_owner = ground arith;
                                        addressed = (eq_iff _ _).0 h5;
                                        not_member = is_some-false _ h6;
                                      },
                                      done,
                                    )

  -- No two invitations have the same token hash: the unique index of the column.
  abbrev pub UniqueHashes : tables.invitation.Rows → Type 0
  UniqueHashes rows =
      (k j : ℕ) (x y : Invitation)
      → tables.invitation.get k rows ≡ some x
      → tables.invitation.get j rows ≡ some y
      → x.token_hash ≡ y.token_hash
      → k ≡ j

  -- The rows with a token hash are still there, and as they were.
  abbrev pub Stays : String → tables.invitation.Rows → tables.invitation.Rows → Type 0
  Stays token_hash rows later =
      (k : ℕ) (x : Invitation)
      → tables.invitation.get k rows ≡ some x
      → has_token_hash token_hash x ≡ true
      → tables.invitation.get k later ≡ some x

  found_accepted :
      (now : ℕ) (token_hash : String) (rows : tables.invitation.Rows) (x : Invitation)
      → UniqueHashes rows
      → tables.invitation.find_first (has_token_hash token_hash) rows ≡ some x
      → tables.invitation.find_first
          (has_token_hash token_hash)
          (tables.invitation.update_many (λ r. r.id == x.id) (accepted now) rows)
        ≡ some (accepted now x)
  found_accepted now token_hash rows x unique found =
      let (hashed, there) = tables.invitation.find_first-some _ rows x found in
      found_updated tables.invitation (has_token_hash token_hash) (accepted now) rows x
        (accepted-Keeps tables now) (λ r. refl)
        (λ y there' hashed'.
          unique y.id x.id y x there' there ((eq_iff _ _).0 hashed' ∙ sym ((eq_iff _ _).0 hashed)))
        there hashed

  -- An invitation that is still as it was when it was accepted is the one that its token finds.
  found_later :
      (token_hash : String) (rows later : tables.invitation.Rows) (y : Invitation)
      → UniqueHashes later
      → Stays token_hash rows later
      → tables.invitation.find_first (has_token_hash token_hash) rows ≡ some y
      → tables.invitation.find_first (has_token_hash token_hash) later ≡ some y
  found_later token_hash rows later y unique stays found =
      let (hashed, there) = tables.invitation.find_first-some _ rows y found in
      let kept : tables.invitation.get y.id later ≡ some y = stays y.id y there hashed in
      elim (Option-cases (tables.invitation.find_first (has_token_hash token_hash) later)) [
        | inl absent ↦
            absurd (cc (hashed, tables.invitation.find_first-none _ later y.id y absent kept))
        | inr (z, again) ↦
            let (hashed', there') = tables.invitation.find_first-some _ later z again in
            let same : z.id ≡ y.id =
              unique z.id y.id z y there' kept
                ((eq_iff _ _).0 hashed' ∙ sym ((eq_iff _ _).0 hashed)) in
            cc (again, there', kept, ap (λ i. tables.invitation.get i later) same)
      ]

  -- An invitation is accepted once. Where token hashes are unique before and later, whatever else is written
  -- in between while the row of the accepted invitation stays as it is, any user who comes with its token is
  -- told that it has been accepted, and nothing is written.
  pub accept_once :
      (now id : ℕ) (token_hash : String) (user_id : ℕ) (user_email : String) (db after : Db tables)
      (now' id' user_id' : ℕ) (user_email' : String) (later : Db tables)
      → UniqueHashes db.invitations
      → UniqueHashes later.invitations
      → Service.accept prisma now id token_hash user_id user_email db ≡ (ok tt, after)
      → Stays token_hash after.invitations later.invitations
      → Service.accept prisma now' id' token_hash user_id' user_email' later
        ≡ (err (app (conflict (some "Invitation has already been accepted"))), later)
  unfolding Service.accept Repository.find_by_token_hash or_throw refuse
  accept_once now id token_hash user_id user_email db after now' id' user_id' user_email' later
        unique unique' e stays =
      let (x, found, may, (rows, _, is)) =
        atomic-ok (accept-Accepted now id token_hash user_id user_email db) e in
      let first : tables.invitation.find_first (has_token_hash token_hash) after.invitations
          ≡ some (accepted now x) =
        rw is (found_accepted now token_hash db.invitations x unique found) in
      let again =
        found_later token_hash after.invitations later.invitations (accepted now x) unique' stays
          first in
      rw (again, may.not_revoked) refl
