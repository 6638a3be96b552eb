-- ===== src/Table/Laws.antt =====
-- What `select` reads after each statement, and the uniqueness of the primary key.
use softos_sdd_orchestrator.Prelude.{
  String, ◌≡◌, refl, none, some, List, [], ◌∷◌, arith, ◌==◌, eq_iff, if◌then◌else◌, Bool-cases, inl,
  inr,
}
use mathlib.Core.Option
use softos_sdd_orchestrator.Table.{insert, select, delete, update}

module _ {ℓ} {A : Type ℓ} (key : A → String) where
  pub select-delete :
      (k j : String) (rows : List A)
      → select key j (delete key k rows) ≡ (if k == j then none else select key j rows)
  unfolding select delete
  select-delete k j [] = ground arith
  select-delete k j (r ∷ rows) =
      ground (arith, select-delete k j rows, eq_iff (key r) k, eq_iff (key r) j, eq_iff k j)

  -- The statements set no column of the primary key.
  abbrev pub KeepsKey : (A → A) → Type ℓ
  KeepsKey f = (r : A) → key (f r) ≡ key r

  pub select-update :
      (k j : String) (f : A → A) (rows : List A)
      → ((r : A) → key (f r) ≡ key r)
      → select key j (update key k f rows)
        ≡ (if k == j then Option.map f (select key j rows) else select key j rows)
  unfolding select update
  select-update k j f [] h = ground arith
  select-update k j f (r ∷ rows) h = ground (
    arith,
    select-update k j f rows h,
    h r,
    eq_iff (key r) k,
    eq_iff (key r) j,
    eq_iff (key (f r)) j,
    eq_iff k j,
  )

  pub select-insert :
      (r : A) (j : String) (rows : List A)
      → select key (key r) rows ≡ none
      → select key j (insert r rows) ≡ (if key r == j then some r else select key j rows)
  unfolding select insert
  select-insert r j [] h = refl
  select-insert r j (s ∷ rows) h = ground (
    arith,
    select-insert r j rows (ground arith),
    eq_iff (key s) j,
    eq_iff (key r) j,
    eq_iff (key s) (key r),
  )

  -- What `select` finds has the key that it looked for.
  pub select-key : (j : String) (rows : List A) {r : A} → select key j rows ≡ some r → key r ≡ j
  unfolding select
  select-key j [] h = ground arith
  select-key j (s ∷ rows) {r} h = elim (Bool-cases (key s == j)) [
    | inl same ↦ ground (arith, eq_iff (key s) j)
    | inr other ↦ select-key j rows (rw other at h)
  ]

  -- PRIMARY KEY: no two rows share a key.
  abbrev pub IsUnique : List A → Type ℓ
  IsUnique [] = Unit
  IsUnique (r ∷ rows) = (select key (key r) rows ≡ none) × IsUnique rows

  pub delete-IsUnique : (k : String) (rows : List A) → IsUnique rows → IsUnique (delete key k rows)
  unfolding delete
  delete-IsUnique k [] u = tt
  delete-IsUnique k (r ∷ rows) u = elim (Bool-cases (key r == k)) [
    | inl gone ↦ rw gone (delete-IsUnique k rows u.1)
    | inr kept ↦ rw kept (ground (arith, select-delete k (key r) rows), delete-IsUnique k rows u.1)
  ]

  pub update-IsUnique :
      (k : String) (f : A → A) (rows : List A)
      → ((r : A) → key (f r) ≡ key r)
      → IsUnique rows
      → IsUnique (update key k f rows)
  unfolding update
  update-IsUnique k f [] h u = tt
  update-IsUnique k f (r ∷ rows) h u = elim (Bool-cases (key r == k)) [
    | inl found ↦
        rw found
          (ground (arith, h r, select-update k (key r) f rows h), update-IsUnique k f rows h u.1)
    | inr other ↦
        rw other (ground (arith, select-update k (key r) f rows h), update-IsUnique k f rows h u.1)
  ]

  pub insert-IsUnique :
      (r : A) (rows : List A)
      → select key (key r) rows ≡ none
      → IsUnique rows
      → IsUnique (insert r rows)
  unfolding insert select
  insert-IsUnique r [] h u = (ground arith, tt)
  insert-IsUnique r (s ∷ rows) h u = (
    ground (
      arith,
      select-insert r (key s) rows (ground arith),
      eq_iff (key r) (key s),
      eq_iff (key s) (key r),
    ),
    insert-IsUnique r rows (ground arith) u.1,
  )
