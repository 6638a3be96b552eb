-- ===== src/Table/Count.antt =====
-- Sums over the rows of a table, and what an UPDATE of one row does to them.
use softos_sdd_orchestrator.Prelude.{
  ℕ, ◌+◌, String, ◌≡◌, refl, none, some, List, [], ◌∷◌, arith, ◌==◌, eq_iff, Bool-cases, inl, inr,
  subst,
}
use softos_sdd_orchestrator.Table.{insert, select, update}
use softos_sdd_orchestrator.Table.Laws.{IsUnique}

module _ {A : Type 0} (weight : A → ℕ) where
  unfoldable pub total : List A → ℕ
  total [] = 0
  total (r ∷ rows) = weight r + total rows

  pub total-insert : (r : A) (rows : List A) → total (insert r rows) ≡ total rows + weight r
  unfolding total insert
  total-insert r [] = omega arith
  total-insert r (x ∷ rows) = omega (arith, total-insert r rows)

module _ {A : Type 0} (key : A → String) where
  pub update_absent :
      (k : String) (f : A → A) (rows : List A)
      → select key k rows ≡ none
      → update key k f rows ≡ rows
  unfolding select update
  update_absent k f [] h = refl
  update_absent k f (r ∷ rows) h = ground (arith, update_absent k f rows (ground arith))

  -- The weight of the row that was found is replaced by that of the new row.
  pub total-update :
      (weight : A → ℕ) (k : String) (f : A → A) (row : A) (rows : List A)
      → IsUnique key rows
      → select key k rows ≡ some row
      → total weight (update key k f rows) + weight row ≡ total weight rows + weight (f row)
  unfolding total select update
  total-update weight k f row [] u h = ground arith
  total-update weight k f row (r ∷ rows) u h = elim (Bool-cases (key r == k)) [
    | inl same ↦
        let absent = subst (λ j. select key j rows ≡ none) ((eq_iff (key r) k).0 same) u.0 in
        ground (arith, update_absent k f rows absent)
    | inr other ↦ ground (arith, total-update weight k f row rows u.1 (rw other at h))
  ]
