-- ===== src/Table/Partition.antt =====
-- A SELECT with a WHERE clause splits the rows of a table; and what an ORDER BY keeps and promises.
use mathlib.Core.List.{Perm, perm_middle}
use mathlib.Core.List.Perm
use softos_sdd_orchestrator.Prelude.{
  Bool, true, not, ◌≡◌, List, [], ◌∷◌, ◌++◌, Bool-cases, inl, inr,
}
use softos_sdd_orchestrator.Prelude.Lists.{All}
use softos_sdd_orchestrator.Prelude.Sort.{insert_sorted, sort, IsSorted}
use softos_sdd_orchestrator.Table.{select_where}

module _ {A : Type 0} (p : A → Bool) where
  -- The rows that the clause leaves out.
  abbrev pub rest_where : List A → List A
  rest_where = select_where (λ r. not (p r))

  pub select_where-perm : (rows : List A) → Perm (select_where p rows ++ rest_where rows) rows
  unfolding select_where
  select_where-perm [] = Perm.refl []
  select_where-perm (r ∷ rows) = elim (Bool-cases (p r)) [
    | inl fits ↦ rw fits (Perm.cons r (select_where-perm rows))
    | inr unfit ↦ rw unfit (
        Perm.trans (perm_middle (select_where p rows) (rest_where rows))
          (Perm.cons r (select_where-perm rows)))
  ]

  pub select_where-All :
      (P : A → Type 0)
      → ((r : A) → p r ≡ true → P r)
      → (rows : List A) → All P (select_where p rows)
  unfolding select_where
  select_where-All P holds [] = tt
  select_where-All P holds (r ∷ rows) = elim (Bool-cases (p r)) [
    | inl fits ↦ rw fits (holds r fits, select_where-All P holds rows)
    | inr unfit ↦ rw unfit (select_where-All P holds rows)
  ]

module _ {A : Type 0} (le : A → A → Bool) where
  insert_sorted-All :
      (P : A → Type 0) (x : A) (xs : List A) → P x → All P xs → All P (insert_sorted le x xs)
  unfolding insert_sorted
  insert_sorted-All P x [] h hs = (h, tt)
  insert_sorted-All P x (y ∷ ys) h (k, ks) = elim (Bool-cases (le x y)) [
    | inl first ↦ rw first (h, (k, ks))
    | inr later ↦ rw later (k, insert_sorted-All P x ys h ks)
  ]

  pub sort-All : (P : A → Type 0) (xs : List A) → All P xs → All P (sort le xs)
  unfolding sort
  sort-All P [] h = tt
  sort-All P (x ∷ xs) (h, hs) = insert_sorted-All P x (sort le xs) h (sort-All P xs hs)

module _ {A : Type 0} where
  -- Each row stands in a relation to the next.
  abbrev pub IsOrdered : (A → A → Type 0) → List A → Type 0
  IsOrdered R [] = Unit
  IsOrdered R (x ∷ []) = Unit
  IsOrdered R (x ∷ y ∷ ys) = R x y × IsOrdered R (y ∷ ys)

  pub IsSorted-IsOrdered :
      (le : A → A → Bool) (R : A → A → Type 0)
      → ((a b : A) → le a b ≡ true → R a b)
      → (xs : List A) → IsSorted le xs
      → IsOrdered R xs
  IsSorted-IsOrdered le R holds [] h = tt
  IsSorted-IsOrdered le R holds (x ∷ []) h = tt
  IsSorted-IsOrdered le R holds (x ∷ y ∷ ys) (h, hs) =
      (holds x y h, IsSorted-IsOrdered le R holds (y ∷ ys) hs)
