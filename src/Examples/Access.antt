-- ===== src/Examples/Access.antt =====
-- Members, roles and errors.
use tasks_platform.Common.{ℕ, ◌≡◌, ◌≢◌, refl, arith, none, some, [], ◌∷◌}
use tasks_platform.Errors.{app, too_many_requests, error_handler}
use tasks_platform.Errors.Laws.{Told, error_handler-Told}
use tasks_platform.Authorization.Permissions.{
  owner, admin, member, viewer, member_update_role, role_has_permission,
}
use tasks_platform.Database.Client.{ok}
use tasks_platform.Database.Instance.{memory, memory_tables}
use tasks_platform.Database.Memory.Scan.{first_below}
use tasks_platform.Members.Gate.{user_auth, api_key_auth, of_membership}
use tasks_platform.Members.Service
use tasks_platform.Members.Controller.{
  admit, update_role, remove, leave, transfer_ownership, serve, serve_all,
}
use tasks_platform.Members.Repository.{with_role}
use tasks_platform.Members.Ownership.{HasOneOwner, Owns}
use tasks_platform.Members.Transfer.{transfer_ownership_stale}
use tasks_platform.Members.Admission.{Admitted, admit-Admitted}
use tasks_platform.Database.Steps.{Ends}
use tasks_platform.Database.Outcomes.{OnOk}
use tasks_platform.Members.Escalation.{RoleChanged, serve-update_role-RoleChanged}
use tasks_platform.Members.Invariant.{serve_all-HasOneOwner}
use tasks_platform.Examples.Rows.{db, membership}

one_owner : HasOneOwner memory_tables 1 db.memberships
one_owner = (1, membership 1 owner, (refl, refl, refl), λ k m owns. ground arith)

serve_all-HasOneOwner_example :
    HasOneOwner memory_tables 1
      (serve_all memory
        ((some (user_auth 1), transfer_ownership 1 2)
          ∷ (some (user_auth 1), leave 1)
          ∷ (none, remove 1 3)
          ∷ [])
        db).memberships
serve_all-HasOneOwner_example =
    serve_all-HasOneOwner memory
      ((some (user_auth 1), transfer_ownership 1 2)
        ∷ (some (user_auth 1), leave 1)
        ∷ (none, remove 1 3)
        ∷ [])
      db 1 one_owner

-- The transfer to user 3 of an owner who has handed over to user 2 in between.
transfer_ownership_stale_example :
    let (r, after) = Service.transfer_ownership memory 1 2 3 db in
    (r ≡ ok tt)
    × Owns memory_tables after.memberships 1 1 (membership 1 owner)
    × Owns memory_tables after.memberships 1 3 (with_role owner (membership 3 member))
    × ◌≢◌ {A = ℕ} 1 3
unfolding first_below
transfer_ownership_stale_example =
    transfer_ownership_stale memory 1 2 3 db 1 refl refl (refl, refl, refl) refl refl (omega arith)

admit-Admitted_example :
    let m = of_membership 1 (membership 2 admin) in
    (a : _) × (some (user_auth 2) ≡ some a)
    × (db ≡ db)
    × Admitted memory db a 1 member_update_role m
unfolding admit tasks_platform.Members.Gate.require_membership
    tasks_platform.Members.Gate.find_organization tasks_platform.Database.Client.or_throw
    first_below tasks_platform.Members.Gate.resolve
    tasks_platform.Members.Repository.find_by_user_and_organization
    tasks_platform.Members.Gate.require_permission tasks_platform.Database.Client.ensure
    role_has_permission
admit-Admitted_example =
    admit-Admitted memory (some (user_auth 2)) 1 member_update_role db db
      (of_membership 1 (membership 2 admin)) refl

error_handler-Told_example :
    let r = error_handler (app (too_many_requests 30 (some "Slow down"))) (some "request") in
    Told (app (too_many_requests 30 (some "Slow down"))) r × (r.body.instance_id ≡ some "request")
error_handler-Told_example =
    error_handler-Told (app (too_many_requests 30 (some "Slow down"))) (some "request")

serve-update_role-RoleChanged_example :
    Ends
      (OnOk (λ _ after. RoleChanged memory (some (user_auth 2)) 1 3 viewer db after))
      (serve memory (some (user_auth 2)) (update_role 1 3 viewer) db)
serve-update_role-RoleChanged_example =
    serve-update_role-RoleChanged memory (some (user_auth 2)) 1 3 viewer db
