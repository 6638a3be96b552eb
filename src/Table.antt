-- ===== src/Table.antt =====
-- An SQL table with a text as its PRIMARY KEY, as its rows in the order of insertion, and the
-- statements that the stores run on it. `key` reads a row's primary key.
pub mod Laws
pub mod Purge
pub mod Count
pub mod Replace
pub mod Transaction
pub mod Partition
use softos_sdd_orchestrator.Prelude.{
  String, Bool, Option, none, some, List, [], ◌∷◌, ◌++◌, map, ◌==◌, if◌then◌else◌,
}

module _ {ℓ} {A : Type ℓ} where
  -- SELECT * ... WHERE p
  unfoldable pub select_where : (A → Bool) → List A → List A
  select_where p [] = []
  select_where p (r ∷ rows) = let rest = select_where p rows in if p r then r ∷ rest else rest

  -- INSERT INTO
  unfoldable pub insert : A → List A → List A
  insert r rows = rows ++ r ∷ []

module _ {ℓ} {A : Type ℓ} (key : A → String) where
  -- SELECT * ... WHERE key = k, fetchone()
  unfoldable pub select : String → List A → Option A
  select k [] = none
  select k (r ∷ rows) = if key r == k then some r else select k rows

  -- DELETE ... WHERE key = k
  unfoldable pub delete : String → List A → List A
  delete k [] = []
  delete k (r ∷ rows) = let rest = delete k rows in if key r == k then rest else r ∷ rest

  -- UPDATE ... SET f WHERE key = k
  unfoldable pub update : String → (A → A) → List A → List A
  update k f [] = []
  update k f (r ∷ rows) = let rest = update k f rows in if key r == k then f r ∷ rest else r ∷ rest

  -- DELETE one key after the other
  unfoldable pub delete_all : List String → List A → List A
  delete_all [] rows = rows
  delete_all (k ∷ ks) rows = delete_all ks (delete k rows)
