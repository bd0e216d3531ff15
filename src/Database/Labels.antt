-- ===== src/Database/Labels.antt =====
-- The tables `Label` and `TaskLabel` of apps/api/prisma/schema.prisma. The unique index on a label's
-- organization and name does not tell upper from lower case: how texts are compared is a parameter.
use tasks_platform.Common.{
  ℕ, ◌≡◌, refl, String, Bool, true, false, not, ◌&&◌, ◌||◌, Option, none, some, List, [], ◌∷◌, ◌==◌,
  arith, Bool-cases, inl, inr, ap, sym, ◌∙◌, if◌then◌else◌,
}
use tasks_platform.Common.Sets.{listed, is_set}

pub record Label : Type 0 where
  pub id : ℕ
  pub organization_id : ℕ
  pub name : String
  pub color : String
  pub created_at : ℕ

abbrev pub Label_key : Label → ℕ
Label_key r = r.id

abbrev pub Label_clashes : (String → String → Bool) → Label → Label → Bool
Label_clashes same_text a b = a.organization_id == b.organization_id && same_text a.name b.name

-- The table that joins tasks to labels. Its primary key is the pair, and to remove a label removes its pairs.
pub record Links : Type 1 where
  pub Rows : Type 0
  pub holds : ℕ → ℕ → Rows → Bool
  -- `deleteMany({ where: { taskId } })`
  pub delete_many : ℕ → Rows → Rows
  -- `createMany` for one task: none stands for a pair that is there already or is given twice, which throws
  pub create_many : ℕ → List ℕ → Rows → Option Rows
  pub delete_label : ℕ → Rows → Rows
  pub holds-delete_many :
      (task task' label : ℕ) (s : Rows)
      → holds task label (delete_many task' s) ≡ (holds task label s && not (task == task'))
  pub holds-create_many :
      (task task' label : ℕ) (labels : List ℕ) (s t : Rows)
      → create_many task' labels s ≡ some t
      → holds task label t ≡ (holds task label s || (task == task' && listed label labels))
  pub create_many-some :
      (task : ℕ) (labels : List ℕ) (s : Rows)
      → is_set labels ≡ true
      → ((label : ℕ) → holds task label s ≡ false)
      → (t : Rows) × (create_many task labels s ≡ some t)
  pub holds-delete_label :
      (task label label' : ℕ) (s : Rows)
      → holds task label (delete_label label' s) ≡ (holds task label s && not (label == label'))

-- Links in memory that meet the interface.
abbrev pub any_held : ℕ → List ℕ → (ℕ → ℕ → Bool) → Bool
any_held task [] s = false
any_held task (label ∷ labels) s = s task label || any_held task labels s

none_held :
    (task : ℕ) (labels : List ℕ) (s : ℕ → ℕ → Bool)
    → ((label : ℕ) → s task label ≡ false)
    → any_held task labels s ≡ false
none_held task [] s free = refl
none_held task (label ∷ labels) s free = ground (arith, free label, none_held task labels s free)

abbrev pub memory_create_many : ℕ → List ℕ → (ℕ → ℕ → Bool) → Option (ℕ → ℕ → Bool)
memory_create_many task labels s =
    if is_set labels && not (any_held task labels s)
    then some (λ i label. s i label || (i == task && listed label labels))
    else none

pub memory_holds :
    (task task' label : ℕ) (labels : List ℕ) (s t : ℕ → ℕ → Bool)
    → memory_create_many task' labels s ≡ some t
    → t task label ≡ (s task label || (task == task' && listed label labels))
memory_holds task task' label labels s t e =
    elim (Bool-cases (is_set labels && not (any_held task' labels s))) [
      | inl may ↦
          let made : memory_create_many task' labels s
              ≡ some (λ i l. s i l || (i == task' && listed l labels)) =
            rw may refl in
          ap at (sym e ∙ made)
      | inr not_may ↦ absurd (ground arith)
    ]
  where
    at : Option (ℕ → ℕ → Bool) → Bool
    at none = false
    at (some u) = u task label

pub memory_create_many-some :
    (task : ℕ) (labels : List ℕ) (s : ℕ → ℕ → Bool)
    → is_set labels ≡ true
    → ((label : ℕ) → s task label ≡ false)
    → (t : ℕ → ℕ → Bool) × (memory_create_many task labels s ≡ some t)
memory_create_many-some task labels s distinct free = (
  (λ i label. s i label || (i == task && listed label labels)),
  rw (distinct, none_held task labels s free) refl,
)

abbrev pub memory_links : Links
memory_links = record {
  Rows = ℕ → ℕ → Bool;
  holds = λ task label s. s task label;
  delete_many = λ task' s task label. s task label && not (task == task');
  create_many = memory_create_many;
  delete_label = λ label' s task label. s task label && not (label == label');
  holds-delete_many = λ task task' label s. refl;
  holds-create_many = memory_holds;
  create_many-some = memory_create_many-some;
  holds-delete_label = λ task label label' s. refl;
}
