-- ===== src/Prelude/Sets.antt =====
-- Python's comprehensions over texts, and its sets as lists.
use text.Mathlib.Text.{find?}
use softos_sdd_orchestrator.Prelude.Tests.{if◌then◌else◌}
use Prim.Native.String.{String}
use mathlib.Core.Bool.{Bool, true, false, not}
use mathlib.Core.Option.{none, some}
use mathlib.Core.List.{List, [], ◌∷◌}
use text.Mathlib.Text.{◌==◌}
use softos_sdd_orchestrator.Prelude.Text.{text_leb}
use softos_sdd_orchestrator.Prelude.Strip.{strip}
use softos_sdd_orchestrator.Prelude.Sort.{sort}
use softos_sdd_orchestrator.Prelude.Lists.{contains, filter}

-- [str(item).strip() for item in items if str(item).strip()]
unfoldable pub stripped : List String → List String
stripped [] = []
stripped (item ∷ items) =
    let rest = stripped items in if strip item == "" then rest else strip item ∷ rest

-- [str(item) for item in items if str(item).strip()]
unfoldable pub non_blank : List String → List String
non_blank items = filter (λ item. not (strip item == "")) items

-- set(items), as a list without repetition
unfoldable pub dedupe : List String → List String
dedupe [] = []
dedupe (x ∷ xs) = let rest = dedupe xs in if contains x rest then rest else x ∷ rest

-- sorted(set(items))
unfoldable pub sorted_set : List String → List String
unfolding dedupe
sorted_set items = sort text_leb (dedupe items)

-- part in text
abbrev pub has : String → String → Bool
has text part = elim (find? text part) [ none ↦ false | some _ ↦ true ]
