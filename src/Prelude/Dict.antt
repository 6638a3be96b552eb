-- ===== src/Prelude/Dict.antt =====
-- Python's `dict` with texts as keys, in the order of insertion.
use Prim.Native.String.{String}
use mathlib.Core.Bool.{Bool, true, false}
use mathlib.Core.Option.{Option, none, some}
use mathlib.Core.List.{List, [], ◌∷◌, map}
use mathlib.Core.Path.{◌≡◌, refl, ◌∙◌, ap, subst}
use native.Mathlib.Omega.{arith}
use text.Mathlib.Text.{◌==◌}
use text.Mathlib.TextEquality.{eq_iff}
use softos_sdd_orchestrator.Prelude.Tests.{if◌then◌else◌, Bool-cases}
use softos_sdd_orchestrator.Prelude.Text.{text_leb, text_leb-total}
use softos_sdd_orchestrator.Prelude.Sort.{sort, insert_sorted, IsSorted, sort-IsSorted}
use softos_sdd_orchestrator.Prelude.Lists.{contains, filter}
use mathlib.Core.Logic.{inl, inr}

abbrev pub Dict : Type 0 → Type 0
Dict V = List (String × V)

module _ {V : Type 0} where
  -- d.get(k)
  unfoldable pub lookup : String → Dict V → Option V
  lookup k [] = none
  lookup k ((j, v) ∷ d) = if j == k then some v else lookup k d

  -- k in d
  abbrev pub is_key : String → Dict V → Bool
  is_key k d = elim (lookup k d) [ none ↦ false | some _ ↦ true ]

  -- d[k] = v
  unfoldable pub put : String → V → Dict V → Dict V
  put k v [] = (k, v) ∷ []
  put k v ((j, w) ∷ d) = let rest = put k v d in if j == k then (k, v) ∷ d else (j, w) ∷ rest

  -- list(d)
  abbrev pub keys : Dict V → List String
  keys d = map (λ e. e.0) d

  abbrev pub item_leb : String × V → String × V → Bool
  item_leb a b = text_leb a.0 b.0

  -- sorted(d.items()), for different keys
  unfoldable pub sorted_items : Dict V → Dict V
  sorted_items d = sort item_leb d

  -- No key twice, as in every dict.
  abbrev pub IsDict : Dict V → Type 0
  IsDict [] = Unit
  IsDict ((k, v) ∷ d) = (lookup k d ≡ none) × IsDict d

  pub lookup-put :
      (k j : String) (v : V) (d : Dict V)
      → lookup j (put k v d) ≡ (if k == j then some v else lookup j d)
  unfolding lookup put
  lookup-put k j v [] = refl
  lookup-put k j v ((i, w) ∷ d) =
      ground (arith, lookup-put k j v d, eq_iff i k, eq_iff i j, eq_iff k j)

  lookup-insert_sorted :
      (k j : String) (v : V) (d : Dict V)
      → lookup j d ≡ none
      → lookup k (insert_sorted item_leb (j, v) d) ≡ lookup k ((j, v) ∷ d)
  unfolding lookup insert_sorted
  lookup-insert_sorted k j v [] h = refl
  lookup-insert_sorted k j v ((i, w) ∷ d) h =
      ground (arith, lookup-insert_sorted k j v d, eq_iff i k, eq_iff j k, eq_iff i j)

  insert_sorted-IsDict :
      (j : String) (v : V) (d : Dict V)
      → IsDict ((j, v) ∷ d)
      → IsDict (insert_sorted item_leb (j, v) d)
  unfolding lookup insert_sorted
  insert_sorted-IsDict j v [] h = h
  insert_sorted-IsDict j v ((i, w) ∷ d) (fresh, (i_fresh, h)) = elim (Bool-cases (text_leb j i)) [
    | inl first ↦ rw first (fresh, (i_fresh, h))
    | inr later ↦ rw later (
      lookup-insert_sorted i j v d (ground (arith, fresh))
          ∙ ground (arith, fresh, eq_iff i j, eq_iff j i),
      insert_sorted-IsDict j v d (ground (arith, fresh), h),
    )
  ]

  sort_keeps :
      (d : Dict V)
      → IsDict d
      → IsDict (sort item_leb d) × ((k : String) → lookup k (sort item_leb d) ≡ lookup k d)
  unfolding sort lookup
  sort_keeps [] h = (tt, λ k. refl)
  sort_keeps ((j, v) ∷ d) (fresh, h) =
      let (unique, same) = sort_keeps d h in
      let fresh' : lookup j (sort item_leb d) ≡ none = same j ∙ fresh in
      (
        insert_sorted-IsDict j v (sort item_leb d) (fresh', unique),
        λ k.
            lookup-insert_sorted k j v (sort item_leb d) fresh'
            ∙ ap (λ o. if j == k then some v else o) (same k),
      )

  -- Sorting keeps the entries of a dict.
  pub lookup-sorted_items :
      (k : String) (d : Dict V) → IsDict d → lookup k (sorted_items d) ≡ lookup k d
  unfolding sorted_items
  lookup-sorted_items k d h = (sort_keeps d h).1 k

  pub sorted_items-IsDict : (d : Dict V) → IsDict d → IsDict (sorted_items d)
  unfolding sorted_items
  sorted_items-IsDict d h = (sort_keeps d h).0

  -- Whether a test holds of a key and its value.
  abbrev pub holds_at : (String → V → Bool) → String → Option V → Bool
  holds_at p k none = false
  holds_at p k (some v) = p k v

  pub contains-keys :
      (p : String → V → Bool) (k : String) (d : Dict V)
      → IsDict d
      → contains k (keys (filter (λ e. p e.0 e.1) d)) ≡ holds_at p k (lookup k d)
  unfolding filter lookup
  contains-keys p k [] h = refl
  contains-keys p k ((j, v) ∷ d) (fresh, h) = elim (Bool-cases (j == k)) [
    | inl same ↦
        let e : j ≡ k = (eq_iff j k).0 same in
        let gone : lookup k d ≡ none = subst (λ i. lookup i d ≡ none) e fresh in
        ground (arith, contains-keys p k d h, ap (λ i. p i v) e)
    | inr other ↦ ground (arith, contains-keys p k d h)
  ]

  pub sorted_items-IsSorted : (d : Dict V) → IsSorted item_leb (sorted_items d)
  unfolding sorted_items
  sorted_items-IsSorted d = sort-IsSorted item_leb (λ a b. text_leb-total a.0 b.0) d

  pub lookup-filter :
      (p : String → V → Bool) (k : String) (d : Dict V)
      → IsDict d
      → lookup k (filter (λ e. p e.0 e.1) d)
        ≡ (if holds_at p k (lookup k d) then lookup k d else none)
  unfolding lookup filter
  lookup-filter p k [] h = refl
  lookup-filter p k ((j, v) ∷ d) (fresh, h) = elim (Bool-cases (j == k)) [
    | inl same ↦
        let e : j ≡ k = (eq_iff j k).0 same in
        let gone : lookup k d ≡ none = subst (λ i. lookup i d ≡ none) e fresh in
        ground (arith, lookup-filter p k d h, ap (λ i. p i v) e)
    | inr other ↦ ground (arith, lookup-filter p k d h)
  ]

  pub filter-IsDict :
      (p : String → V → Bool) (d : Dict V) → IsDict d → IsDict (filter (λ e. p e.0 e.1) d)
  unfolding filter lookup
  filter-IsDict p [] h = tt
  filter-IsDict p ((j, v) ∷ d) (fresh, h) = elim (Bool-cases (p j v)) [
    | inl kept ↦ rw kept (lookup-filter p j d h ∙ ground (arith, fresh), filter-IsDict p d h)
    | inr dropped ↦ rw dropped (filter-IsDict p d h)
  ]
