-- ===== src/Members/Service.antt =====
-- apps/api/src/modules/members/members.service.ts
use tasks_platform.Common.{ℕ, some}
use tasks_platform.Errors.{not_found, conflict, forbidden}
use tasks_platform.Authorization.Permissions.{Role, owner, admin, is_owner, can_manage_role}
use tasks_platform.Database.Schema.{Membership}
use tasks_platform.Database.Client.{Prisma, Action, pure, refuse, ensure, or_throw, ◌>>=◌, ◌>>◌}
use tasks_platform.Members.Repository

module _ (prisma : Prisma) where
  unfoldable pub require_membership_by_user : ℕ → ℕ → Action prisma.tables Membership
  unfolding Repository.find_by_user_and_organization
  require_membership_by_user user_id organization_id = do
    membership ← Repository.find_by_user_and_organization user_id organization_id
    or_throw membership (not_found (some "Member not found"))

  unfoldable pub assert_can_manage : Role → Role → Action prisma.tables (Unit {0})
  assert_can_manage actor_role target_role =
      ensure (can_manage_role actor_role target_role)
        (forbidden (some "You cannot manage a member whose role is equal to or above your own"))

  unfoldable pub add_owner : ℕ → ℕ → ℕ → ℕ → Action prisma.tables Membership
  add_owner id now user_id organization_id = Repository.create (record {
    id = id;
    user_id = user_id;
    organization_id = organization_id;
    role = owner;
    joined_at = now;
  })

  unfoldable pub update_role : ℕ → Role → ℕ → Role → Action prisma.tables Membership
  update_role organization_id actor_role target_user_id new_role = do
    target ← require_membership_by_user target_user_id organization_id
    refuse (is_owner target.role)
        (conflict (some "Transfer ownership instead of changing the owner role directly"))
    refuse (is_owner new_role)
        (conflict (some "Use the transfer-ownership endpoint to change the organization owner"))
    assert_can_manage actor_role target.role
    Repository.update_role target.id new_role

  unfoldable pub remove : ℕ → Role → ℕ → Action prisma.tables (Unit {0})
  remove organization_id actor_role target_user_id = do
    target ← require_membership_by_user target_user_id organization_id
    refuse (is_owner target.role)
        (conflict (some "The owner cannot be removed; transfer ownership first"))
    assert_can_manage actor_role target.role
    Repository.remove target.id

  unfoldable pub leave : ℕ → ℕ → Action prisma.tables (Unit {0})
  leave organization_id user_id = do
    membership ← require_membership_by_user user_id organization_id
    refuse (is_owner membership.role)
        (conflict (some "Transfer ownership before leaving the organization"))
    Repository.remove membership.id

  -- The block of the transaction in `transferOwnership`.
  unfoldable pub hand_over : ℕ → ℕ → Action prisma.tables (Unit {0})
  hand_over current_owner_membership_id target_id = do
    Repository.update_role current_owner_membership_id admin
    Repository.update_role target_id owner
    pure tt

  unfoldable pub transfer_ownership : ℕ → ℕ → ℕ → Action prisma.tables (Unit {0})
  transfer_ownership organization_id current_owner_membership_id new_owner_user_id = do
    target ← require_membership_by_user new_owner_user_id organization_id
    refuse (is_owner target.role) (conflict (some "User is already the owner"))
    prisma.transaction (Unit {0}) (hand_over current_owner_membership_id target.id)
