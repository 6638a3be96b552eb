-- ===== src/Prelude/Json.antt =====
-- JSON values as `json.loads` gives them, objects with their keys in order. A float is kept as its
-- text, since no code that is modelled computes with one.
use Prim.Native.String.{String}
use mathlib.Core.Bool.{Bool, false, not}
use package.text.Mathlib.Text.{◌==◌}
use mathlib.Core.Option.{Option, none, some}
use mathlib.Core.List.{List, [], ◌∷◌}
use softos_sdd_orchestrator.Prelude.Int.{ℤ, pos}
use softos_sdd_orchestrator.Prelude.Dict.{Dict, lookup, keys}
use softos_sdd_orchestrator.Prelude.Tests.{if◌then◌else◌, nat_eq}
use softos_sdd_orchestrator.Prelude.Strip.{strip}
use softos_sdd_orchestrator.Prelude.Sets.{sorted_set}
use softos_sdd_orchestrator.Prelude.Lists.{contains, filter}
use softos_sdd_orchestrator.Prelude.Order.{head?}

mutual
  pub data Json : Type 0 where
    null : Json
    bool : Bool → Json
    int : ℤ → Json
    float : String → Json
    text : String → Json
    arr : Items → Json
    obj : Fields → Json

  pub data Items : Type 0 where
    nil : Items
    item : Json → Items → Items

  pub data Fields : Type 0 where
    end : Fields
    field : String → Json → Fields → Fields

abbrev pub items : Items → List Json
items nil = []
items (item v vs) = v ∷ items vs

abbrev pub fields : Fields → Dict Json
fields end = []
fields (field k v fs) = (k, v) ∷ fields fs

-- entry.get(k): a missing key reads as None, as a null does.
abbrev pub or_null : Option Json → Json
or_null none = null
or_null (some v) = v

unfoldable pub get : String → Dict Json → Json
get k entry = or_null (lookup k entry)

-- entry.get(k, default)
unfoldable pub get_or : String → Json → Dict Json → Json
get_or k default entry = elim (lookup k entry) [ none ↦ default | some v ↦ v ]

-- The stripped text, of a text that is not blank.
unfoldable pub stripped_text : Json → Option String
unfolding strip
stripped_text (text s) = if strip s == "" then none else some (strip s)
stripped_text _ = none

-- Whether the value is the int 1; a bool is not.
abbrev pub is_one : Json → Bool
is_one (int (pos n)) = nat_eq n 1
is_one _ = false

-- sorted(set(entry) - known)[0], if there is one
unfoldable pub unknown_field : List String → Dict Json → Option String
unfolding sorted_set
unknown_field known entry = head? (sorted_set (filter (λ k. not (contains k known)) (keys entry)))

-- The texts of a list of texts.
unfoldable pub texts_of : Items → Option (List String)
texts_of nil = some []
texts_of (item (text s) vs) = elim (texts_of vs) [ none ↦ none | some rest ↦ some (s ∷ rest) ]
texts_of (item _ vs) = none
