-- ===== src/Authorization/Permissions/Matrix.antt =====
-- The shape of the matrix: the roles are ordered by what they may do.
use tasks_platform.Common.{
  get_elem?, List, [], ◌∷◌, none, ap, ◌≤◌, ◌≡◌, ◌≢◌, ◌↔◌, ◌⊎◌, refl, Bool, true, not, ◌||◌, arith,
  ◌==◌,
}
use tasks_platform.Authorization.Permissions.{
  permissions, get_elem?-permissions, Role, owner, admin, member, viewer, Permission,
  task_assign_self, permission_index, includes, role_has_permission, role_rank, every_permission,
  is_permission,
}

-- Some element of the list is `p`.
abbrev pub Holds : Permission → List Permission → Type 0
Holds p [] = ⊥
Holds p (q ∷ qs) = (q ≡ p) ⊎ Holds p qs

-- `low` holding a permission other than task:assign:self means that `high` holds it too.
carries : Role → Role → Permission → Bool
unfolding role_has_permission
carries low high p =
    permission_index p == permission_index task_assign_self
    || not (role_has_permission low p)
    || role_has_permission high p

carries_up :
    (low high : Role)
    → role_rank low ≤ role_rank high
    → (p : Permission) → carries low high p ≡ true
unfolding carries
carries_up owner owner h = every_permission _ refl
carries_up admin owner h = every_permission _ refl
carries_up member owner h = every_permission _ refl
carries_up viewer owner h = every_permission _ refl
carries_up owner admin h = absurd (omega arith)
carries_up admin admin h = every_permission _ refl
carries_up member admin h = every_permission _ refl
carries_up viewer admin h = every_permission _ refl
carries_up owner member h = absurd (omega arith)
carries_up admin member h = absurd (omega arith)
carries_up member member h = every_permission _ refl
carries_up viewer member h = every_permission _ refl
carries_up owner viewer h = absurd (omega arith)
carries_up admin viewer h = absurd (omega arith)
carries_up member viewer h = absurd (omega arith)
carries_up viewer viewer h = every_permission _ refl

pub permission_index-injective :
    (p q : Permission) → permission_index p ≡ permission_index q → p ≡ q
permission_index-injective p q e =
    cc (get_elem?-permissions p, get_elem?-permissions q, ap (get_elem? permissions) e)

-- Whoever ranks higher may do all that a lower role may, claiming a task for oneself
-- (task:assign:self) being the one exception.
role_has_permission_mono :
    (low high : Role) (p : Permission)
    → role_rank low ≤ role_rank high
    → p ≢ task_assign_self
    → role_has_permission low p ≡ true
    → role_has_permission high p ≡ true
role_has_permission_mono low high p le ne has =
    unfold carries in
    ground (arith, carries_up low high le p, permission_index-injective p task_assign_self)

-- A list includes a permission exactly when it holds an equal one.
pub includes_iff : (ps : List Permission) (p : Permission) → (includes ps p ≡ true) ↔ Holds p ps
unfolding includes
includes_iff [] p = (λ e. cc, λ h. absurd h)
includes_iff (q ∷ qs) p = ground (arith, permission_index-injective q p, includes_iff qs p)

is_permission_unknown : is_permission "task:fly" ≡ none
unfolding is_permission
is_permission_unknown = refl
