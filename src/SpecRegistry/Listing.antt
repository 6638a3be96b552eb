-- ===== src/SpecRegistry/Listing.antt =====
-- What `list_specs` shows.
use mathlib.Core.List.{Perm}
use mathlib.Core.List.Perm
use softos_sdd_orchestrator.Prelude.{
  ◌<◌, String, Bool, ◌≡◌, refl, ◌⊎◌, Option, some, none, true, false, not, List, ◌++◌, ◌&&◌, arith,
  eq_iff, inl, inr,
}
use softos_sdd_orchestrator.Prelude.Lists.{All}
use softos_sdd_orchestrator.Prelude.Text.{text_leb, text_leb-total}
use softos_sdd_orchestrator.Prelude.Sort.{sort-perm, sort-IsSorted}
use softos_sdd_orchestrator.Table.{select_where}
use softos_sdd_orchestrator.Table.Partition.{
  rest_where, select_where-perm, select_where-All, sort-All, IsOrdered, IsSorted-IsOrdered,
}
use softos_sdd_orchestrator.SpecRegistry.Data.{Spec, Registry, state_text}
use softos_sdd_orchestrator.SpecRegistry.Methods.{matches, latest_first, list_specs}

-- A filter that is given and not empty names the text of the column.
abbrev pub Passes : (filter column : Option String) → Type 0
Passes none column = Unit
Passes (some wanted) column = (wanted ≡ "") ⊎ (column ≡ some wanted)

abbrev pub Fits : (state assignee : Option String) → Spec → Type 0
Fits state assignee spec =
    Passes state (some (state_text spec.state)) × Passes assignee spec.assignee

-- Of two specs, the one updated later comes first, and of two updates of one second that with the
-- smaller id.
abbrev pub Precedes : Spec → Spec → Type 0
Precedes a b =
    (b.updated_at < a.updated_at)
    ⊎ ((a.updated_at ≡ b.updated_at) × (text_leb a.spec_id b.spec_id ≡ true))

-- A listing of the rows: what it shows and what it leaves out are the rows.
pub record IsListing (state assignee : Option String) (rows shown : List Spec) : Type 0 where
  pub others : List Spec
  pub all_rows : Perm (shown ++ others) rows
  pub fit : All (Fits state assignee) shown
  pub unfit : All (λ spec. ¬ Fits state assignee spec) others
  pub ordered : IsOrdered Precedes shown

matches-Passes :
    (filter column : Option String) → matches filter column ≡ true → Passes filter column
matches-Passes none column h = tt
matches-Passes (some wanted) none h = ground (arith, h, eq_iff wanted "")
matches-Passes (some wanted) (some text) h = ground (arith, h, eq_iff wanted "", eq_iff text wanted)

Passes-matches :
    (filter column : Option String) → Passes filter column → matches filter column ≡ true
Passes-matches none column h = refl
Passes-matches (some wanted) none (inl empty) = ground (arith, eq_iff wanted "", empty)
Passes-matches (some wanted) none (inr same) = absurd (ground (arith, same))
Passes-matches (some wanted) (some text) (inl empty) = ground (arith, eq_iff wanted "", empty)
Passes-matches (some wanted) (some text) (inr same) = ground (arith, eq_iff text wanted, same)

latest_first-total : (a b : Spec) → latest_first a b ≡ false → latest_first b a ≡ true
latest_first-total a b h = ground (arith, text_leb-total a.spec_id b.spec_id)

latest_first-Precedes : (a b : Spec) → latest_first a b ≡ true → Precedes a b
latest_first-Precedes a b h = ground (arith, h)

-- `list_specs` shows each row of the registry whose state and assignee are what the filters ask for, an
-- absent or empty filter asking nothing, as often as the registry has it, and no other row; the latest
-- update comes first, and specs updated in one second come by their ids.
pub list_specs_faithful :
    (state assignee : Option String) (registry : Registry)
    → IsListing state assignee registry.specs (list_specs state assignee registry)
unfolding list_specs
list_specs_faithful state assignee registry =
    let p : Spec → Bool = λ (spec : Spec).
      matches state (some (state_text spec.state)) && matches assignee spec.assignee in
    let shown = select_where p registry.specs in
    let others = rest_where p registry.specs in
    record {
      others = others;
      all_rows =
          Perm.trans (Perm.append_right others (sort-perm latest_first shown))
            (select_where-perm p registry.specs);
      fit = sort-All latest_first (Fits state assignee) shown (
          select_where-All p (Fits state assignee)
            (λ spec h. (
              matches-Passes state (some (state_text spec.state)) (ground (arith, h)),
              matches-Passes assignee spec.assignee (ground (arith, h)),
            ))
            registry.specs);
      unfit =
          select_where-All (λ spec. not (p spec)) (λ spec. ¬ Fits state assignee spec)
            (λ spec h (of_state, of_assignee). ground (
              arith,
              h,
              Passes-matches state (some (state_text spec.state)) of_state,
              Passes-matches assignee spec.assignee of_assignee,
            ))
            registry.specs;
      ordered =
          IsSorted-IsOrdered latest_first Precedes latest_first-Precedes _
            (sort-IsSorted latest_first latest_first-total shown);
    }
