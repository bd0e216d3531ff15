-- ===== src/Labels/Replaced.antt =====
-- What setting the labels of a task writes (setTaskLabels of apps/api/src/modules/labels/labels.service.ts).
use tasks_platform.Common.{
  ℕ, ◌≡◌, ◌↔◌, refl, sym, ap, ◌∙◌, subst, String, Bool, true, List, [], ◌∷◌, some, arith, ◌==◌,
  if◌then◌else◌, Among, length,
}
use tasks_platform.Common.Sets.{listed, unique, listed-unique, is_set-unique, keys_all}
use tasks_platform.Authorization.Actor.{Actor}
use tasks_platform.Database.Labels.{Label, Label_key}
use tasks_platform.Database.Client.{Tables, Db, Prisma, pure}
use tasks_platform.Database.Steps.{Ends, ensure-then}
use tasks_platform.Database.Outcomes.{
  OnOk, Atomic, Reads, refused, known-then, atomically, stored_last, ok-then, weaken_outcome,
}
use tasks_platform.Activity.Service.{Generated}
use tasks_platform.Activity.Mirror.{Recorded, record_one-Recorded}
use tasks_platform.Labels.Service
use tasks_platform.Labels.Service.{labels_in, label_order, labels_entry}

module _ (t : Tables) where
  -- A task's links after they were replaced, every other task's being as before.
  abbrev pub LinkedTo : ℕ → List ℕ → t.task_label.Rows → t.task_label.Rows → Type 0
  LinkedTo task_id ids before after =
      (task label : ℕ)
      → t.task_label.holds task label after
        ≡ (if task == task_id then listed label ids else t.task_label.holds task label before)

  -- What `replaceTaskLabels` leaves.
  abbrev pub Linked : ℕ → List ℕ → Db t → Db t → Type 0
  Linked task_id ids db after =
      (links : t.task_label.Rows) × (after ≡ record db { task_labels = links })
      × LinkedTo task_id ids db.task_labels links

  replace_task_labels-Linked :
      (task_id : ℕ) (ids : List ℕ) (db : Db t)
      → Ends (OnOk (λ _. Linked task_id ids db)) (Service.replace_task_labels task_id ids db)
  unfolding Service.replace_task_labels listed
  replace_task_labels-Linked task_id [] db = record {
    holds = (
      t.task_label.delete_many task_id db.task_labels,
      refl,
      λ task label.
          ground (arith, t.task_label.holds-delete_many task task_id label db.task_labels),
    );
  }
  replace_task_labels-Linked task_id (n ∷ ns) db =
      let rest = t.task_label.delete_many task_id db.task_labels in
      stored_last db _ _ _ (λ _. record { holds = tt })
        λ links made. record {
          holds = (
            links,
            refl,
            λ task label. ground (
              arith,
              t.task_label.holds-create_many task task_id label (n ∷ ns) rest links made,
              t.task_label.holds-delete_many task task_id label db.task_labels,
            ),
          );
        }

  -- The rows that `findManyByIds` gives: exactly the organization's labels among the ids.
  abbrev pub Found : ℕ → List ℕ → Db t → List Label → Type 0
  Found organization_id ids db labels =
      ((label : Label)
        → Among label labels ↔ (
            (labels_in organization_id ids label ≡ true)
            × (t.label.get label.id db.labels ≡ some label)))
      × ((length labels ≡ length ids)
          → (id : ℕ) → listed id ids ≡ true
          → (label : Label) × Among label labels × (label.id ≡ id))

  find_many_by_ids-Found :
      (organization_id : ℕ) (ids : List ℕ) (db : Db t)
      → Ends
          (Reads db (Found organization_id (unique ids) db))
          (Service.find_many_by_ids organization_id (unique ids) db)
  unfolding Service.find_many_by_ids unique listed
  find_many_by_ids-Found organization_id [] db = record {
    holds = (
      refl,
      (
        (λ label. (λ here. absurd here, λ (held, _). absurd (ground arith))),
        λ _ id there. absurd (ground arith),
      ),
    );
  }
  find_many_by_ids-Found organization_id (n ∷ ns) db =
      let ids = unique (n ∷ ns) in
      let p = labels_in organization_id ids in
      let row = t.label.find_many-row p db.labels in
      record {
        holds = (
          refl,
          (
            (λ label. (
              row label,
              λ (held, there). t.label.find_many-all p db.labels label.id label there held,
            )),
            λ same.
                keys_all Label_key (t.label.find_many p db.labels) ids
                  (t.label.find_many-DistinctKeys p db.labels)
                  (λ label among. let (held, _) = row label among in ground arith)
                  (is_set-unique (n ∷ ns)) (omega arith),
          ),
        );
      }

module _ (prisma : Prisma) (above : String → String → Bool) where
  open prisma use {tables}

  -- The labels of a task, as they stand.
  abbrev pub labels_of : Db tables → ℕ → List Label
  labels_of db task_id =
      tables.label.find_ordered (λ label. tables.task_label.holds task_id label.id db.task_labels)
        (label_order above) db.labels

  -- All the ids are labels of the organization, they are what the task then has, every other task has what
  -- it had, and one entry with its event tells of the change.
  abbrev pub Relabelled :
      Generated → ℕ → ℕ → Actor → List ℕ → Db tables → List Label → Db tables → Type 0
  Relabelled g organization_id task_id actor ids db labels after =
      ((id : ℕ)
        → listed id ids ≡ true
        → (label : Label) × (tables.label.get id db.labels ≡ some label)
          × (label.organization_id ≡ organization_id))
      × ((label : Label)
          → Among label labels
            ↔ ((listed label.id ids ≡ true) × (tables.label.get label.id db.labels ≡ some label)))
      × (links : tables.task_label.Rows) × LinkedTo tables task_id ids db.task_labels links
      × Recorded tables (λ _. g)
          (labels_entry task_id organization_id actor (labels_of db task_id) labels ∷ [])
          (record db { task_labels = links }) after

  -- The block of the transaction, for labels that were found.
  abbrev Replaced :
      Generated → ℕ → ℕ → Actor → List ℕ → List Label → Db tables → List Label → Db tables → Type 0
  Replaced g organization_id task_id actor ids labels db returned after =
      (returned ≡ labels)
      × (links : tables.task_label.Rows) × LinkedTo tables task_id ids db.task_labels links
      × Recorded tables (λ _. g)
          (labels_entry task_id organization_id actor (labels_of db task_id) labels ∷ [])
          (record db { task_labels = links }) after

  replace_block-Replaced :
      (g : Generated) (organization_id task_id : ℕ) (actor : Actor) (ids : List ℕ)
      (labels : List Label) (db : Db tables)
      → Ends
          (OnOk (Replaced g organization_id task_id actor ids labels db))
          (Service.replace_block above g organization_id task_id actor ids labels db)
  unfolding Service.replace_block Service.list_for_task
  replace_block-Replaced g org task_id actor ids labels db =
      let entry = labels_entry task_id org actor (labels_of db task_id) labels in
      ok-then _ _ (replace_task_labels-Linked tables task_id ids db)
        λ _ middle (links, same, linked).
          ok-then _ (λ _. pure labels) (record_one-Recorded tables (λ _. g) entry middle)
            λ _ after recorded. record {
              holds = (
                refl,
                links,
                linked,
                subst (λ d. Recorded tables (λ _. g) (entry ∷ []) d after) same recorded,
              );
            }

  Replaced-Relabelled :
      (g : Generated) (organization_id task_id : ℕ) (actor : Actor) (ids : List ℕ)
      (labels : List Label) (db : Db tables) (returned : List Label) (after : Db tables)
      → Found tables organization_id (unique ids) db labels
      → length labels ≡ length (unique ids)
      → Replaced g organization_id task_id actor (unique ids) labels db returned after
      → Relabelled g organization_id task_id actor ids db returned after
  Replaced-Relabelled g org task_id actor ids labels db returned after (rows, all) full
        (same, links, linked, recorded) =
      subst (λ l. Relabelled g org task_id actor ids db l after) (sym same)
        (
          (λ id there.
              let (label, among, is) = all full id (listed-unique id ids ∙ there) in
              let (held, stored) = (rows label).0 among in
              (
                label,
                subst (λ i. tables.label.get i db.labels ≡ some label) is stored,
                ground arith,
              )),
          (λ label. (
            (λ among.
                let (held, stored) = (rows label).0 among in
                (ground (arith, listed-unique label.id ids), stored)),
            λ (there, stored).
                let (other, among, is) = all full label.id (listed-unique label.id ids ∙ there) in
                let (held, found) = (rows other).0 among in
                let row : other ≡ label = cc (ap (λ i. tables.label.get i db.labels) is) in
                subst (λ l. Among l labels) row among,
          )),
          links,
          (λ task label.
              linked task label
              ∙ ap
                  (λ b.
                    if task == task_id
                    then b
                    else tables.task_label.holds task label db.task_labels)
                  (listed-unique label ids)),
          recorded,
        )

  -- Setting the labels of a task either throws and writes nothing, or each id that was given is the id of a
  -- label of the organization, the task has exactly the labels with these ids, every other task has the
  -- labels it had, and one entry with its event tells of the names before and after.
  pub set_task_labels_lem :
      (g : Generated) (organization_id task_id : ℕ) (actor : Actor) (ids : List ℕ) (db : Db tables)
      → Ends
          (Atomic db (Relabelled g organization_id task_id actor ids db))
          (Service.set_task_labels prisma above g organization_id task_id actor ids db)
  unfolding Service.set_task_labels
  set_task_labels_lem g org task_id actor ids db =
      known-then _ _ (find_many_by_ids-Found tables org ids db) (λ e. refused)
        λ labels found.
          ensure-then db _ _ _ (λ _. refused)
            λ full.
              weaken_outcome _
                (atomically prisma db _
                  (replace_block-Replaced g org task_id actor (unique ids) labels db))
                (λ returned after done.
                  Replaced-Relabelled g org task_id actor ids labels db returned after found
                    (ground arith) done)
