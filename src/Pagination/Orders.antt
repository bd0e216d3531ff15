-- ===== src/Pagination/Orders.antt =====
-- The orders of the lists: by the time a row was created, then by its key.
use tasks_platform.Common.{ℕ, inl, inr, Bool, ◌||◌, ◌&&◌, ◌==◌, arith, ltb, leb, Bool-cases}
use tasks_platform.Common.Ordered.{IsOrder}

module _ {A : Type 0} (created_at key : A → ℕ) where
  -- `[{ createdAt: 'asc' }, { id: 'asc' }]`
  abbrev pub oldest_first : A → A → Bool
  oldest_first a b =
      ltb (created_at a) (created_at b) || (created_at a == created_at b && leb (key a) (key b))

  -- `[{ createdAt: 'desc' }, { id: 'asc' }]`
  abbrev pub newest_first : A → A → Bool
  newest_first a b =
      ltb (created_at b) (created_at a) || (created_at a == created_at b && leb (key a) (key b))

  pub oldest_first-IsOrder : IsOrder oldest_first
  oldest_first-IsOrder = (
    (λ a b. elim (Bool-cases (oldest_first a b)) [ inl le ↦ inl le | inr gt ↦ inr (ground arith) ]),
    λ a b c p q. ground arith,
  )

  pub newest_first-IsOrder : IsOrder newest_first
  newest_first-IsOrder = (
    (λ a b. elim (Bool-cases (newest_first a b)) [ inl le ↦ inl le | inr gt ↦ inr (ground arith) ]),
    λ a b c p q. ground arith,
  )
