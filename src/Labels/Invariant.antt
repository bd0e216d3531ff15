-- ===== src/Labels/Invariant.antt =====
-- Through any history of requests on labels, the labels of a task are those of its organization.
use tasks_platform.Common.{
  ℕ, ◌≡◌, inl, inr, refl, sym, ◌∙◌, subst, String, Bool, true, Option, none, some, List, [], ◌∷◌,
  arith, if◌then◌else◌, Bool-cases,
}
use tasks_platform.Authorization.Permissions.{label_manage}
use tasks_platform.Authorization.Actor.{Actor}
use tasks_platform.Database.Schema.{Project, Task}
use tasks_platform.Database.Labels.{Label}
use tasks_platform.Database.Client.{Db, Prisma, Result, pure}
use tasks_platform.Database.Steps.{Ends, refuse-then}
use tasks_platform.Database.Outcomes.{
  Reads, known-then, refused, writes_nothing, or_throw-Reads, keeps-unit, refuse_last,
  weaken_outcome,
}
use tasks_platform.Members.Gate.{
  AuthContext, MembershipContext, require_membership, require_permission, require_actor,
}
use tasks_platform.Tasks.Repository.{live_task}
use tasks_platform.Activity.Service.{Generated}
use tasks_platform.Activity.Mirror.{Recorded-frame}
use tasks_platform.Tasks.Controller.{enter, enter_task}
use tasks_platform.Tasks.Invariant.{
  require_membership-reads, require_permission-reads, require_actor-reads, require_project-Reads,
  require_task-Reads,
}
use tasks_platform.Tasks.Labels.{set_labels, LabelsSet, set_labels-LabelsSet}
use tasks_platform.Labels.Service
use tasks_platform.Labels.Service.{UpdateLabelInput, label_row, labels_entry}
use tasks_platform.Labels.Replaced.{labels_of}
use tasks_platform.Labels.Controller.{Request, Draws, require_label, enter_labels, serve, serve_all}
use tasks_platform.Labels.Agreement.{
  AllAgree, create_row-AllAgree, update_row-AllAgree, remove_row-AllAgree, relabelled-AllAgree,
}

module _ (prisma : Prisma) (above same_lower : String → String → Bool) where
  open prisma use {tables}

  -- A task of the organization that the request is for, as it is stored.
  abbrev InOrganization : Db tables → MembershipContext → Task → Type 0
  InOrganization db m task =
      (tables.task.get task.id db.tasks ≡ some task)
      × (project : Project) × (tables.project.get task.project_id db.projects ≡ some project)
      × (project.organization_id ≡ m.organization_id)

  abbrev OfOrganization : Db tables → MembershipContext × Project → Type 0
  OfOrganization db (m, project) =
      (tables.project.get project.id db.projects ≡ some project)
      × (project.organization_id ≡ m.organization_id)

  task_in_project :
      (m : MembershipContext) (project : Project) (task : Task) (task_id : ℕ) (db : Db tables)
      → OfOrganization db (m, project)
      → (live_task task_id project.id task ≡ true) × (tables.task.get task.id db.tasks ≡ some task)
      → InOrganization db m task
  task_in_project m project task task_id db (stored, same) (live, there) =
      let in_it : project.id ≡ task.project_id = ground arith in
      (
        there,
        project,
        subst (λ i. tables.project.get i db.projects ≡ some project) in_it stored,
        same,
      )

  enter-OfOrganization :
      (auth : Option AuthContext) (organization_id project_id : ℕ) (db : Db tables)
      → Ends (Reads db (OfOrganization db)) (enter prisma auth organization_id project_id db)
  unfolding enter
  enter-OfOrganization auth org project_id db =
      known-then _ _
        (writes_nothing (require_membership auth org db)
          (require_membership-reads prisma auth org db))
        (λ _. refused)
        λ (m : MembershipContext) _.
          known-then _ (λ project. pure (m, project))
            (require_project-Reads prisma project_id m.organization_id db) (λ _. refused)
            λ project found.
              let (live, there) = tables.project.find_first-some _ db.projects project found in
              record { holds = (refl, (there, ground arith)) }

  enter_task-InOrganization :
      (auth : Option AuthContext) (organization_id project_id task_id : ℕ) (db : Db tables)
      → Ends
          (Reads db (λ entered. InOrganization db entered.0 entered.1))
          (enter_task prisma auth organization_id project_id task_id db)
  unfolding enter_task
  enter_task-InOrganization auth org project_id task_id db =
      known-then _ _ (enter-OfOrganization auth org project_id db) (λ _. refused)
        λ entered is_in.
          known-then _ _ (require_task-Reads prisma task_id entered.1 db) (λ _. refused)
            λ task found.
              known-then _ (λ actor. pure (entered.0, task, actor))
                (writes_nothing (require_actor auth (some entered.0) db)
                  (require_actor-reads prisma auth entered.0 db))
                (λ _. refused)
                λ actor _. record {
                  holds = (
                    refl,
                    task_in_project entered.0 entered.1 task task_id db is_in
                        (tables.task.find_first-some _ db.tasks task found),
                  );
                }

  create-AllAgree :
      (id now organization_id : ℕ) (name color : String) (db : Db tables)
      → AllAgree tables db
      → Ends (λ r. AllAgree tables r.1) (Service.create id now organization_id name color db)
  unfolding Service.create Service.find_by_name
  create-AllAgree id now org name color db agree =
      refuse-then db _ _ _ (λ _. record { holds = agree })
        λ _. create_row-AllAgree tables (label_row id now org name color) db agree

  refuse_taken-Reads :
      (organization_id : ℕ) (name : Option String) (db : Db tables)
      → Ends (Reads db (λ _. Unit {0})) (Service.refuse_taken organization_id name db)
  unfolding Service.refuse_taken Service.find_by_name
  refuse_taken-Reads org none db = record { holds = (refl, tt) }
  refuse_taken-Reads org (some name) db =
      refuse_last db _ _ (λ _. refused) λ _. record { holds = (refl, tt) }

  update-AllAgree :
      (label : Label) (input : UpdateLabelInput) (db : Db tables)
      → AllAgree tables db
      → Ends (λ r. AllAgree tables r.1) (Service.update same_lower label input db)
  unfolding Service.update
  update-AllAgree label input db agree =
      known-then _ _ guard (λ _. record { holds = agree })
        λ _ _. update_row-AllAgree tables label.id input db agree
    where
      guard : Ends (Reads db (λ _. Unit {0})) (
          (if Service.renames same_lower input.name label
              then Service.refuse_taken label.organization_id input.name
              else pure tt)
            db)
      guard = elim (Bool-cases (Service.renames same_lower input.name label)) [
        | inl renamed ↦ rw renamed (refuse_taken-Reads label.organization_id input.name db)
        | inr kept ↦ rw kept (record { holds = (refl, tt) })
      ]

  set_labels-AllAgree :
      (g : Generated) (task : Task) (actor : Actor) (m : MembershipContext) (ids : List ℕ)
      (db : Db tables)
      → InOrganization db m task
      → AllAgree tables db
      → Ends
          (λ r. AllAgree tables r.1)
          (set_labels prisma above g task actor m.organization_id ids db)
  set_labels-AllAgree g task actor m ids db (there, project, in_project, same) agree =
      outcome (set_labels prisma above g task actor m.organization_id ids db)
        (set_labels-LabelsSet prisma above g task actor m.organization_id ids db)
    where
      outcome :
          (r : Result Task × Db tables)
          → Ends (LabelsSet prisma above g task actor m.organization_id ids db) r
          → Ends (λ r. AllAgree tables r.1) r
      outcome (result, after) known = elim known.holds [
        | inl (_, _, unwritten) ↦ record { holds = subst (AllAgree tables) (sym unwritten) agree }
        | inr (_, labels, (valid, _, links, linked, recorded), _) ↦ record {
          holds =
              relabelled-AllAgree tables ids task project db links after there in_project
                (λ id listed_id.
                  let (label, stored, of_organization) = valid id listed_id in
                  (label, stored, of_organization ∙ sym same))
                linked
                (Recorded-frame tables (λ _. g)
                  (labels_entry task.id m.organization_id actor (labels_of prisma above db task.id)
                      labels
                    ∷ [])
                  (record db { task_labels = links }) after recorded)
                agree;
        }
      ]

  require_label-Reads :
      (label_id : ℕ) (m : MembershipContext) (db : Db tables)
      → Ends (Reads db (λ _. Unit {0})) (require_label prisma above same_lower label_id m db)
  unfolding require_label Service.find_by_id
  require_label-Reads label_id m db =
      weaken_outcome _ (or_throw-Reads db _ _) λ label after (same, _). (same, tt)

  enter_labels-Reads :
      (auth : Option AuthContext) (organization_id : ℕ) (db : Db tables)
      → Ends
          (Reads db (λ _. Unit {0}))
          (enter_labels prisma above same_lower auth organization_id db)
  unfolding enter_labels
  enter_labels-Reads auth org db =
      known-then _ _
        (writes_nothing (require_membership auth org db)
          (require_membership-reads prisma auth org db))
        (λ _. refused)
        λ (m : MembershipContext) _.
          known-then _ (λ _. pure m)
            (writes_nothing (require_permission label_manage auth (some m) db)
              (require_permission-reads prisma label_manage auth m db))
            (λ _. refused) λ _ _. record { holds = (refl, tt) }

  serve-AllAgree :
      (auth : Option AuthContext) (draws : Draws) (request : Request) (db : Db tables)
      → AllAgree tables db
      → Ends (λ r. AllAgree tables r.1) (serve prisma above same_lower auth draws request db)
  unfolding serve Service.remove
  serve-AllAgree auth draws (Request.create org name color) db agree =
      known-then _ _ (enter_labels-Reads auth org db) (λ _. record { holds = agree })
        λ m _.
          keeps-unit (AllAgree tables) _
            (create-AllAgree draws.label_id draws.now m.organization_id name color db agree)
  serve-AllAgree auth draws (Request.update org label_id input) db agree =
      known-then _ _ (enter_labels-Reads auth org db) (λ _. record { holds = agree })
        λ m _.
          known-then _ _ (require_label-Reads label_id m db) (λ _. record { holds = agree })
            λ label _. keeps-unit (AllAgree tables) _ (update-AllAgree label input db agree)
  serve-AllAgree auth draws (Request.remove org label_id) db agree =
      known-then _ _ (enter_labels-Reads auth org db) (λ _. record { holds = agree })
        λ m _.
          known-then _ _ (require_label-Reads label_id m db) (λ _. record { holds = agree })
            λ label _. remove_row-AllAgree tables label.id db agree
  serve-AllAgree auth draws (Request.set_labels org project_id task_id ids) db agree =
      known-then _ _ (enter_task-InOrganization auth org project_id task_id db)
        (λ _. record { holds = agree })
        λ (m, task, actor) is_in.
          keeps-unit (AllAgree tables) _
            (set_labels-AllAgree draws.generated task actor m ids db is_in agree)

  -- Where every label of a task is stored and belongs to the organization of the task's project, this is so
  -- after any sequence of requests that create, change or remove labels or set the labels of a task, whoever
  -- sends them and whatever becomes of each.
  pub serve_all-AllAgree :
      (history : List (Option AuthContext × Draws × Request)) (db : Db tables)
      → AllAgree tables db
      → AllAgree tables (serve_all prisma above same_lower history db)
  unfolding serve_all
  serve_all-AllAgree [] db agree = agree
  serve_all-AllAgree ((auth, draws, request) ∷ rest) db agree =
      serve_all-AllAgree rest (serve prisma above same_lower auth draws request db).1
        (serve-AllAgree auth draws request db agree).holds
