-- ===== src/Prelude/Collect.antt =====
-- The loop that reads the entries of a JSON object into a dict of records, and what it keeps.
use Prim.Native.String.{String}
use mathlib.Core.Bool.{true, false, ◌||◌}
use mathlib.Core.Option.{Option, none, some, some-injective}
use mathlib.Core.List.{[], ◌∷◌}
use mathlib.Core.Logic.{inl, inr}
use mathlib.Core.Path.{◌≡◌, refl, sym, ◌∙◌, ap, subst}
use native.Mathlib.Omega.{arith}
use text.Mathlib.Text.{◌==◌}
use text.Mathlib.TextEquality.{eq_iff}
use softos_sdd_orchestrator.Prelude.Tests.{Bool-cases}
use softos_sdd_orchestrator.Prelude.Result.{Result, ok, ◌>>=◌, ok-inj, bind-ok}
use softos_sdd_orchestrator.Prelude.Dict.{Dict, lookup, is_key, put, IsDict, lookup-put}
use softos_sdd_orchestrator.Prelude.Json.{Json}

module _ {E V : Type 0} (item_of : Dict V → String → Json → Result E V) where
  -- for key, value in entries: d[key] = item_of(d, key, value)
  unfoldable pub collect : Dict V → Dict Json → Result E (Dict V)
  unfolding put
  collect d [] = ok d
  collect d ((key, value) ∷ entries) =
      item_of d key value >>= λ item. collect (put key item d) entries

module _ {V : Type 0} where
  put-IsDict : (k : String) (v : V) (d : Dict V) → IsDict d → IsDict (put k v d)
  unfolding put lookup
  put-IsDict k v [] h = (refl, tt)
  put-IsDict k v ((j, w) ∷ d) (fresh, h) = elim (Bool-cases (j == k)) [
    | inl same ↦ rw same (subst (λ i. lookup i d ≡ none) ((eq_iff j k).0 same) fresh, h)
    | inr other ↦
        rw other
          (lookup-put k j v d ∙ ground (arith, fresh, eq_iff k j, eq_iff j k), put-IsDict k v d h)
  ]

  -- Each entry of the dict has the property.
  abbrev pub EachEntry : (String → V → Type 0) → Dict V → Type 0
  EachEntry P d = (k : String) (v : V) → lookup k d ≡ some v → P k v

  put-EachEntry :
      (P : String → V → Type 0) (k : String) (v : V) (d : Dict V)
      → P k v
      → EachEntry P d
      → EachEntry P (put k v d)
  put-EachEntry P k v d new each j w found = elim (Bool-cases (k == j)) [
    | inl same ↦
        let e : v ≡ w = some-injective v w (ground (arith, found, lookup-put k j v d)) in
        subst (P j) e (subst (λ i. P i v) ((eq_iff k j).0 same) new)
    | inr other ↦ each j w (ground (arith, found, lookup-put k j v d))
  ]

  is_key-put : (k j : String) (v : V) (d : Dict V) → is_key j (put k v d) ≡ (k == j || is_key j d)
  is_key-put k j v d =
      ap (λ (o : Option V). elim o [ none ↦ false | some _ ↦ true ]) (lookup-put k j v d)
      ∙ ground arith

module _ {E V : Type 0} (item_of : Dict V → String → Json → Result E V) (P : String → V → Type 0)
    (sound : (d : Dict V) (k : String) (value : Json) (v : V)
      → item_of d k value ≡ ok v
      → P k v) where
  -- When every item that is read has a property, every entry of the collected dict has it, and its keys
  -- are those that were there and those of the entries.
  pub collect_sound :
      (d : Dict V) (entries : Dict Json) (result : Dict V)
      → collect item_of d entries ≡ ok result
      → IsDict d
      → EachEntry P d
      → IsDict result
        × EachEntry P result
        × ((k : String) → is_key k result ≡ (is_key k d || is_key k entries))
  unfolding collect lookup
  collect_sound d [] result run unique each =
      let e : d ≡ result = ok-inj run in
      (subst IsDict e unique, subst (EachEntry P) e each, λ k. rw (sym e) (ground arith))
  collect_sound d ((key, value) ∷ entries) result run unique each =
      let (item, read, rest) =
        bind-ok (item_of d key value) (λ v. collect item_of (put key v d) entries) result run in
      let (unique', each', keys') =
        collect_sound (put key item d) entries result rest (put-IsDict key item d unique)
          (put-EachEntry P key item d (sound d key value item read) each) in
      (unique', each', λ k. keys' k ∙ ground (arith, is_key-put key k item d))
