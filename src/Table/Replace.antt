-- ===== src/Table/Replace.antt =====
-- An UPDATE that puts a whole row in the place of the row with the same key.
use softos_sdd_orchestrator.Prelude.{
  String, ◌≡◌, List, [], ◌∷◌, arith, ◌==◌, eq_iff, if◌then◌else◌, Bool-cases, inl, inr,
}
use mathlib.Core.Option
use softos_sdd_orchestrator.Table.{select, update}
use softos_sdd_orchestrator.Table.Laws.{IsUnique}

module _ {A : Type 0} (key : A → String) (new : A) where
  abbrev pub replaced : List A → List A
  replaced = update key (key new) (λ _. new)

  pub select-replaced :
      (j : String) (rows : List A)
      → select key j (replaced rows)
        ≡ (if key new == j then Option.map (λ _. new) (select key j rows) else select key j rows)
  unfolding select update
  select-replaced j [] = ground arith
  select-replaced j (r ∷ rows) = ground (
    arith,
    select-replaced j rows,
    eq_iff (key r) (key new),
    eq_iff (key r) j,
    eq_iff (key new) j,
  )

  pub replaced-IsUnique : (rows : List A) → IsUnique key rows → IsUnique key (replaced rows)
  unfolding update
  replaced-IsUnique [] u = tt
  replaced-IsUnique (r ∷ rows) u = elim (Bool-cases (key r == key new)) [
    | inl same ↦ rw same (
      ground (arith, select-replaced (key new) rows, eq_iff (key r) (key new)),
      replaced-IsUnique rows u.1,
    )
    | inr other ↦ rw other (
      ground
          (arith, select-replaced (key r) rows, eq_iff (key new) (key r), eq_iff (key r) (key new)),
      replaced-IsUnique rows u.1,
    )
  ]
