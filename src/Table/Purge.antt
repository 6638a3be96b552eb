-- ===== src/Table/Purge.antt =====
-- The loop that deletes every row that a `SELECT` found, by its key.

use softos_sdd_orchestrator.Prelude.{
  String, ◌≡◌, refl, Bool, false, Option, none, some, List, [], ◌∷◌, map, arith, ◌==◌, eq_iff,
  if◌then◌else◌, Bool-cases, inl, inr, subst,
}
use softos_sdd_orchestrator.Prelude.Lists.{contains}
use softos_sdd_orchestrator.Table.{select_where, select, delete, delete_all}
use softos_sdd_orchestrator.Table.Laws.{select-delete, IsUnique, delete-IsUnique}

-- Drops the value that passes the test.
abbrev pub reject {ℓ} : {A : Type ℓ} → (A → Bool) → Option A → Option A
reject p none = none
reject p (some r) = if p r then none else some r

module _ {ℓ} {A : Type ℓ} (key : A → String) where
  pub select-delete_all :
      (ks : List String) (j : String) (rows : List A)
      → select key j (delete_all key ks rows) ≡ (if contains j ks then none else select key j rows)
  unfolding delete_all
  select-delete_all [] j rows = refl
  select-delete_all (k ∷ ks) j rows =
      ground (arith, select-delete_all ks j (delete key k rows), select-delete key k j rows)

  contains-map-select_where :
      (p : A → Bool) (j : String) (rows : List A)
      → select key j rows ≡ none
      → contains j (map key (select_where p rows)) ≡ false
  unfolding select_where select
  contains-map-select_where p j [] h = refl
  contains-map-select_where p j (r ∷ rows) h =
      ground (arith, contains-map-select_where p j rows (ground arith))

  selected_or_kept :
      (p : A → Bool) (j : String) (rows : List A)
      → IsUnique key rows
      → (if contains j (map key (select_where p rows)) then none else select key j rows)
        ≡ reject p (select key j rows)
  unfolding select_where select
  selected_or_kept p j [] u = refl
  selected_or_kept p j (r ∷ rows) u = elim (Bool-cases (key r == j)) [
    | inl same ↦
        let absent = subst (λ k. select key k rows ≡ none) ((eq_iff (key r) j).0 same) u.0 in
        ground (arith, contains-map-select_where p j rows absent)
    | inr other ↦ ground (arith, selected_or_kept p j rows u.1)
  ]

  -- With unique keys the loop leaves exactly the rows that the `SELECT` did not find.
  pub select-purge :
      (p : A → Bool) (j : String) (rows : List A)
      → IsUnique key rows
      → select key j (delete_all key (map key (select_where p rows)) rows)
        ≡ reject p (select key j rows)
  select-purge p j rows u = rw select-delete_all (selected_or_kept p j rows u)

  pub delete_all-IsUnique :
      (ks : List String) (rows : List A) → IsUnique key rows → IsUnique key (delete_all key ks rows)
  unfolding delete_all
  delete_all-IsUnique [] rows u = u
  delete_all-IsUnique (k ∷ ks) rows u =
      delete_all-IsUnique ks (delete key k rows) (delete-IsUnique key k rows u)
