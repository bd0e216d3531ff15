-- ===== src/Projects/Keys.antt =====
-- What the projects' operations keep of the tasks' numbers, and the keys that a deletion does not free.
use tasks_platform.Common.{
  ℕ, ◌≡◌, inl, inr, refl, sym, subst, String, true, Option, none, some, arith, ◌==◌, eq_iff,
  Option-cases, ℕ-cases,
}
use tasks_platform.Authorization.Actor.{Actor}
use tasks_platform.Database.Table.{get-updated, updated-some, created-old}
use tasks_platform.Database.Schema.{Project, Project_clashes}
use tasks_platform.Database.Client.{Tables, Db, err, prisma_error, refuse, stored}
use tasks_platform.Database.Steps.{Ends, refuse-then}
use tasks_platform.Database.Outcomes.{stored_last, changed_last}
use tasks_platform.Tasks.Sound.{Sound}
use tasks_platform.Projects.Service
use tasks_platform.Projects.Service.{
  UpdateProjectInput, new_project, live_key, renamed, with_status, removed, is_archived,
  create_project, find_by_key, change_project,
}

module _ (t : Tables) where
  -- A change of one project that keeps its keys and its counter.
  kept_projects :
      (id : ℕ) (f : Project → Project) (db : Db t)
      → ((r : Project) → (f r).id ≡ r.id)
      → ((r x : Project) → Project_clashes (f r) x ≡ true → Project_clashes r x ≡ true)
      → ((r : Project) → (f r).task_counter ≡ r.task_counter)
      → Sound t db
      → Sound t (record db { projects = t.project.update_many (λ p. p.id == id) f db.projects })
  kept_projects id f db same_id same_clash same_counter sound = record {
    timed = sound.timed;
    numbered = λ k task here.
        let (project, stands, below) = sound.numbered k task here in
        let e = get-updated t.project id task.project_id f db.projects (same_id, same_clash) in
        elim (ℕ-cases task.project_id id) [
          | inl its ↦ (f project, ground (arith, e), omega (arith, same_counter project))
          | inr other ↦ (project, ground (arith, e), below)
        ];
    mirrored = sound.mirrored;
  }

  change_project-Sound :
      (id : ℕ) (f : Project → Project) (db : Db t)
      → ((r : Project) → (f r).id ≡ r.id)
      → ((r x : Project) → Project_clashes (f r) x ≡ true → Project_clashes r x ≡ true)
      → ((r : Project) → (f r).task_counter ≡ r.task_counter)
      → Sound t db
      → Ends (λ r. Sound t r.1) (change_project id f db)
  unfolding change_project
  change_project-Sound id f db same_id same_clash same_counter sound =
      changed_last db _ _ (λ _. record { holds = sound })
        λ project rows e.
          let (_, _, _, same) = updated-some t.project id f db.projects (same_id, same_clash) e in
          record {
            holds =
                subst (λ r. Sound t (record db { projects = r })) (sym same)
                  (kept_projects id f db same_id same_clash same_counter sound);
          }

  -- A change of a project's name or description leaves a sound state sound.
  pub update-Sound :
      (project : Project) (input : UpdateProjectInput) (db : Db t)
      → Sound t db
      → Sound t (Service.update project input db).1
  unfolding Service.update
  update-Sound project input db sound =
      (change_project-Sound project.id (renamed input) db (λ r. refl) (λ r x h. h) (λ r. refl)
        sound).holds

  -- A project that is created has no tasks; the others keep theirs and their counters.
  create-Sound :
      (id now organization_id : ℕ) (actor : Actor) (key name : String) (description : Option String)
      (db : Db t)
      → Sound t db
      → Sound t (Service.create id now organization_id actor key name description db).1
  unfolding Service.create find_by_key create_project
  create-Sound id now org actor key name description db sound = ended.holds
    where
      ended : Ends (λ r. Sound t r.1) (Service.create id now org actor key name description db)
      ended =
          refuse-then db _ _ _ (λ _. record { holds = sound })
            λ _.
              stored_last db _ _ _ (λ _. record { holds = sound })
                λ rows e. record {
                  holds = record {
                    timed = sound.timed;
                    numbered = λ k task here.
                        let (project, stands, below) = sound.numbered k task here in
                        (
                          project,
                          created-old t.project (new_project id now org actor key name description)
                              db.projects rows task.project_id e stands,
                          below,
                        );
                    mirrored = sound.mirrored;
                  };
                }

  -- Where a project with the key was deleted and none has it now, creating one with the key fails with the
  -- error of the unique index, which no handler expects, and writes nothing.
  pub create_deleted_key :
      (id now organization_id : ℕ) (actor : Actor) (key name : String) (description : Option String)
      (db : Db t) (k : ℕ) {old : Project}
      → t.project.get k db.projects ≡ some old
      → old.organization_id ≡ organization_id
      → old.key ≡ key
      → t.project.find_first (live_key organization_id key) db.projects ≡ none
      → Service.create id now organization_id actor key name description db ≡ (err prisma_error, db)
  unfolding Service.create find_by_key create_project refuse stored
  create_deleted_key id now org actor key name description db k {old} there its_org its_key free =
      let row = new_project id now org actor key name description in
      elim (Option-cases (t.project.create row db.projects)) [
        | inl failed ↦ rw (free, failed) refl
        | inr (rows, created) ↦ absurd (
            ground (
              arith,
              t.project.create-clashes row db.projects rows k old created there,
              (eq_iff key old.key).1 (sym its_key),
            ))
      ]
