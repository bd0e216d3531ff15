-- ===== src/Labels/Service.antt =====
-- apps/api/src/modules/labels (labels.service.ts, labels.repository.ts). A new row's key, the time and how
-- the database orders names are arguments, as is JavaScript's comparison of two names in lower case.
use tasks_platform.Common.{
  ℕ, String, Bool, false, not, ◌&&◌, ◌||◌, Option, none, some, List, [], ◌==◌, leb, str_eq, or_keep,
  map, length, is_some, is_empty, if◌then◌else◌,
}
use tasks_platform.Common.Sets.{listed, unique}
use tasks_platform.Errors.{conflict, unprocessable_entity}
use tasks_platform.Authorization.Actor.{Actor}
use tasks_platform.Database.Schema.{label_names, labels_changed}
use tasks_platform.Database.Labels.{Label}
use tasks_platform.Database.Client.{
  Tables, Prisma, Action, ok, pure, refuse, ensure, stored, changed, ◌>>=◌, ◌>>◌,
}
use tasks_platform.Pagination.Page.{Page}
use tasks_platform.Pagination.Listing.{list_page}
use tasks_platform.Activity.Service.{Generated, RecordActivityInput, record_change}

pub record UpdateLabelInput : Type 0 where
  pub name : Option String
  pub color : Option String

abbrev pub label_row : ℕ → ℕ → ℕ → String → String → Label
label_row id now organization_id name color = record {
  id = id;
  organization_id = organization_id;
  name = name;
  color = color;
  created_at = now;
}

abbrev pub edited : UpdateLabelInput → Label → Label
edited input label = record label {
  name = or_keep input.name label.name;
  color = or_keep input.color label.color;
}

-- `{ id, organizationId }`
abbrev pub label_in : ℕ → ℕ → Label → Bool
label_in id organization_id label = label.id == id && label.organization_id == organization_id

-- `{ organizationId, id: { in: ids } }`
abbrev pub labels_in : ℕ → List ℕ → Label → Bool
labels_in organization_id ids label =
    label.organization_id == organization_id && listed label.id ids

-- `[{ name: 'asc' }, { id: 'asc' }]`, from how the database orders names: one is above another
abbrev pub label_order : (String → String → Bool) → Label → Label → Bool
label_order above a b = above b.name a.name || (not (above a.name b.name) && leb a.id b.id)

-- `input.name && input.name.toLowerCase() !== label.name.toLowerCase()`
abbrev pub renames : (String → String → Bool) → Option String → Label → Bool
renames same_lower none label = false
renames same_lower (some name) label = not (str_eq name "") && not (same_lower name label.name)

abbrev pub labels_entry : ℕ → ℕ → Actor → List Label → List Label → RecordActivityInput
labels_entry task_id organization_id actor before after = record {
  task_id = task_id;
  organization_id = organization_id;
  actor = actor;
  type = labels_changed;
  before = label_names (map (λ label. label.name) before);
  after = label_names (map (λ label. label.name) after);
}

module _ {t : Tables} where
  -- labelsRepository
  unfoldable pub create_row : Label → Action t Label
  create_row row db =
      stored (t.label.create row db.labels) (λ rows. record db { labels = rows }) row db

  unfoldable pub find_by_name : ℕ → String → Action t (Option Label)
  find_by_name organization_id name db = (
    ok (
        t.label.find_first
          (λ label. label.organization_id == organization_id && t.same_text label.name name)
          db.labels),
    db,
  )

  unfoldable pub find_by_id : ℕ → ℕ → Action t (Option Label)
  find_by_id id organization_id db =
      (ok (t.label.find_first (label_in id organization_id) db.labels), db)

  unfoldable pub find_many_by_ids : ℕ → List ℕ → Action t (List Label)
  find_many_by_ids organization_id ids db =
      if is_empty ids
      then (ok [], db)
      else (ok (t.label.find_many (labels_in organization_id ids) db.labels), db)

  unfoldable pub update_row : ℕ → UpdateLabelInput → Action t Label
  update_row id input db =
      changed (t.label.update id (edited input) db.labels) (λ rows. record db { labels = rows }) db

  -- The deletion cascades to the links.
  unfoldable pub remove_row : ℕ → Action t (Unit {0})
  remove_row id db =
      stored (t.label.delete id db.labels)
        (λ rows. record db {
          labels = rows;
          task_labels = t.task_label.delete_label id db.task_labels;
        })
        tt db

  unfoldable pub list_for_task : (String → String → Bool) → ℕ → Action t (List Label)
  list_for_task above task_id db = (
    ok (
        t.label.find_ordered (λ label. t.task_label.holds task_id label.id db.task_labels)
          (label_order above) db.labels),
    db,
  )

  unfoldable pub replace_task_labels : ℕ → List ℕ → Action t (Unit {0})
  replace_task_labels task_id ids db =
      let rest = t.task_label.delete_many task_id db.task_labels in
      if is_empty ids
      then (ok tt, record db { task_labels = rest })
      else stored (t.task_label.create_many task_id ids rest)
          (λ rows. record db { task_labels = rows }) tt db

  -- labelsService
  unfoldable pub create : ℕ → ℕ → ℕ → String → String → Action t Label
  create id now organization_id name color = do
    existing ← find_by_name organization_id name
    refuse (is_some existing)
        (conflict (some "A label with this name already exists in the organization"))
    create_row (label_row id now organization_id name color)

  -- The look-up of the new name, if it is one.
  unfoldable pub refuse_taken : ℕ → Option String → Action t (Unit {0})
  refuse_taken organization_id none = pure tt
  refuse_taken organization_id (some name) = do
    existing ← find_by_name organization_id name
    refuse (is_some existing)
        (conflict (some "A label with this name already exists in the organization"))

  unfoldable pub update : (String → String → Bool) → Label → UpdateLabelInput → Action t Label
  update same_lower label input = do
    if renames same_lower input.name label
        then refuse_taken label.organization_id input.name
        else pure tt
    update_row label.id input

  unfoldable pub remove : Label → Action t (Unit {0})
  remove label = remove_row label.id

  -- The block of the transaction in `setTaskLabels`.
  unfoldable pub replace_block :
      (String → String → Bool)
      → Generated
      → ℕ
      → ℕ
      → Actor
      → List ℕ
      → List Label
      → Action t (List Label)
  replace_block above g organization_id task_id actor ids valid_labels = do
    before ← list_for_task above task_id
    replace_task_labels task_id ids
    record_change g (labels_entry task_id organization_id actor before valid_labels)
    pure valid_labels

  module _ (decode : String → Option ℕ) (encode : ℕ → String) where
    unfoldable pub list : (String → String → Bool) → ℕ → Option String → ℕ → Action t (Page Label)
    list above organization_id cursor limit db =
        list_page t.label decode encode (λ label. label.organization_id == organization_id)
          (label_order above) cursor limit db.labels db

module _ (prisma : Prisma) where
  unfoldable pub set_task_labels :
      (String → String → Bool)
      → Generated
      → ℕ
      → ℕ
      → Actor
      → List ℕ
      → Action prisma.tables (List Label)
  set_task_labels above g organization_id task_id actor label_ids = do
    valid_labels ← find_many_by_ids organization_id (unique label_ids)
    ensure (length valid_labels == length (unique label_ids))
        (unprocessable_entity (some "One or more labels do not belong to this organization"))
    prisma.transaction (List Label)
        (replace_block above g organization_id task_id actor (unique label_ids) valid_labels)
