-- ===== src/AgentResources/Sound.antt =====
-- About `select_resource_candidates`: who is a candidate, and in which order.
use softos_sdd_orchestrator.Prelude.{
  String, Bool, true, false, not, ◌&&◌, Option, none, some, List, ◌++◌, ◌≡◌, refl, sym, ap, ◌∙◌,
  subst, arith, Option-cases, inl, inr,
}
use mathlib.Core.Option.{none-ne-some}
use softos_sdd_orchestrator.Prelude.Int.{ℤ, pos, negsuc, int_leb}
use softos_sdd_orchestrator.Prelude.Lists.{contains, filter}
use softos_sdd_orchestrator.Prelude.Text.{text_leb-total}
use softos_sdd_orchestrator.Prelude.Sort.{sort, IsSorted, sort-IsSorted}
use softos_sdd_orchestrator.Prelude.Order.{
  head?, contains-sort, contains-filter, contains-append, filter_congr,
}
use softos_sdd_orchestrator.Prelude.Dict.{
  Dict, IsDict, lookup, is_key, sorted_items, holds_at, contains-keys, lookup-sorted_items,
  sorted_items-IsDict,
}
use softos_sdd_orchestrator.Prelude.Result.{Result, ok, err, ok-inj}
use softos_sdd_orchestrator.Prelude.Sets.{stripped}
use softos_sdd_orchestrator.Prelude.Strip.{strip, lower}
use softos_sdd_orchestrator.AgentResources.Data.{
  AgentResource, DataSensitivity, local_only, cloud_eligible, WorkClass, work_class,
  preferred_order_of,
}
use softos_sdd_orchestrator.AgentResources.Selection.{
  Demand, Choice, is_admitted, rank_leb, choose, filter_resources_for_selection,
  order_resource_candidates, select_resource_candidates, priority_of, SelectionError,
  unknown_work_class, is_local, wants_local, preferred_order_for_work_class,
}

int_leb-total : (a b : ℤ) → int_leb a b ≡ false → int_leb b a ≡ true
int_leb-total (pos a) (pos b) h = ground arith
int_leb-total (pos a) (negsuc b) h = refl
int_leb-total (negsuc a) (pos b) h = ground arith
int_leb-total (negsuc a) (negsuc b) h = ground arith

pub rank_leb-total :
    (resources : Dict AgentResource) (a b : String)
    → rank_leb resources a b ≡ false
    → rank_leb resources b a ≡ true
unfolding rank_leb
rank_leb-total resources a b h =
    ground
      (arith, int_leb-total (priority_of resources a) (priority_of resources b), text_leb-total a b)

-- Whether an id names a resource that the demand admits.
abbrev pub admits : Dict AgentResource → Demand → String → Bool
admits resources demand resource_id =
    holds_at (is_admitted demand) resource_id (lookup resource_id resources)

pub filtered_lem :
    (resources : Dict AgentResource) (demand : Demand) (k : String)
    → IsDict resources
    → contains k (filter_resources_for_selection resources demand) ≡ admits resources demand k
unfolding filter_resources_for_selection
filtered_lem resources demand k h =
    contains-keys (is_admitted demand) k (sorted_items resources) (sorted_items-IsDict resources h)
    ∙ ap (holds_at (is_admitted demand) k) (lookup-sorted_items k resources h)

-- What a choice of candidates is to be: the ids of the declared order that are admitted, in that
-- order, then the other admitted ids, by priority and then by id.
pub record IsChoice (resources : Dict AgentResource) (demand : Demand) (choice : Choice)
    : Type 0 where
  pub rest : List String
  pub in_order : choice.candidates ≡ filter (admits resources demand) choice.preferred_order ++ rest
  pub ranked : IsSorted (rank_leb resources) rest
  pub others :
      (k : String)
      → contains k rest ≡ (admits resources demand k && not (contains k choice.preferred_order))
  pub complete : (k : String) → contains k choice.candidates ≡ admits resources demand k
  pub first : choice.selected ≡ head? choice.candidates

module _ (resources : Dict AgentResource) (demand : Demand) (unique : IsDict resources) where
  admits-is_key :
      (k : String) → (admits resources demand k && is_key k resources) ≡ admits resources demand k
  admits-is_key k = elim (Option-cases (lookup k resources)) [
    | inl missing ↦ rw missing refl
    | inr (resource, found) ↦ ground (arith, found)
  ]

  present : List String
  present = filter (λ k. is_key k resources) (filter_resources_for_selection resources demand)

  contains-present : (k : String) → contains k present ≡ admits resources demand k
  unfolding present
  contains-present k =
      contains-filter (λ j. is_key j resources) k (filter_resources_for_selection resources demand)
      ∙ ap (λ b. b && is_key k resources) (filtered_lem resources demand k unique)
      ∙ admits-is_key k

  pub choose-IsChoice :
      (text : String) (order : List String)
      → IsChoice resources demand (choose resources demand text order)
  unfolding choose order_resource_candidates present
  choose-IsChoice text order =
      let preferred : List String = filter (λ k. contains k present) order in
      let others : List String = filter (λ k. not (contains k preferred)) present in
      let rest : List String = sort (rank_leb resources) others in
      let in_rest : (k : String)
          → contains k rest ≡ (admits resources demand k && not (contains k order)) =
        λ (k : String).
          contains-sort (rank_leb resources) k others
          ∙ contains-filter (λ j. not (contains j preferred)) k present
          ∙ ground (arith, contains-present k, contains-filter (λ j. contains j present) k order) in
      let order_kept : preferred ≡ filter (admits resources demand) order =
        filter_congr (λ k. contains k present) (admits resources demand) contains-present order in
      record {
        rest = rest;
        in_order = ap (λ xs. xs ++ rest) order_kept;
        ranked = sort-IsSorted (rank_leb resources) (rank_leb-total resources) others;
        others = in_rest;
        complete = λ k.
            contains-append k preferred rest
            ∙ ground (
              arith,
              in_rest k,
              contains-present k,
              contains-filter (λ j. contains j present) k order,
            );
        first = refl;
      }

choose-preferred_order :
    (resources : Dict AgentResource) (demand : Demand) (text : String) (order : List String)
    → (choose resources demand text order).preferred_order ≡ order
unfolding choose
choose-preferred_order resources demand text order = refl

-- The outcomes of a selection: the declared order of a known work class, or the order that the caller
-- gives.
pub data Selects (resources : Dict AgentResource) (demand : Demand) (text : String)
    : Option (List String) → Result SelectionError Choice → Type 0 where
  declared :
      (class : WorkClass) (choice : Choice)
      → work_class (lower (strip text)) ≡ some class
      → choice.preferred_order ≡ preferred_order_of class
      → IsChoice resources demand choice
      → Selects resources demand text none (ok choice)
  given :
      (order : List String) (choice : Choice)
      → choice.preferred_order ≡ stripped order
      → IsChoice resources demand choice
      → Selects resources demand text (some order) (ok choice)
  refused :
      work_class (lower (strip text)) ≡ none
      → Selects resources demand text none (err (unknown_work_class text))

-- On a dict of resources, a selection with an order, or without one for one of the four work classes,
-- gives a choice: its candidates are exactly the resources that are available, have the required
-- capabilities and meet the data sensitivity, first those of the order in its order, then the others
-- by priority and id, and the first candidate is selected. Without an order, any other work class is
-- refused.
pub select_resource_candidates_outcome :
    (resources : Dict AgentResource) (demand : Demand) (text : String)
    (preferred_order : Option (List String))
    → IsDict resources
    → Selects resources demand text preferred_order
        (select_resource_candidates resources demand text preferred_order)
unfolding select_resource_candidates preferred_order_for_work_class
select_resource_candidates_outcome resources demand text (some order) unique =
    given order (choose resources demand text (stripped order))
      (choose-preferred_order resources demand text (stripped order))
      (choose-IsChoice resources demand unique text (stripped order))
select_resource_candidates_outcome resources demand text none unique =
    elim (Option-cases (work_class (lower (strip text)))) [
      | inl missing ↦ rw missing (refused missing)
      | inr (class, found) ↦ rw found (
          declared class (choose resources demand text (preferred_order_of class)) found
            (choose-preferred_order resources demand text (preferred_order_of class))
            (choose-IsChoice resources demand unique text (preferred_order_of class)))
    ]

-- A selection with a given order gives a choice.
pub Selects-given :
    (resources : Dict AgentResource) (demand : Demand) (text : String)
    (order : Option (List String)) (xs : List String) (result : Result SelectionError Choice)
    → order ≡ some xs
    → Selects resources demand text order result
    → (choice : Choice) × (result ≡ ok choice) × IsChoice resources demand choice
Selects-given resources demand text _ xs _ e (declared class choice _ _ h) =
    absurd (none-ne-some xs e)
Selects-given resources demand text _ xs _ e (given order choice _ h) = (choice, refl, h)
Selects-given resources demand text _ xs _ e (refused _) = absurd (none-ne-some xs e)

Selects-IsChoice :
    (resources : Dict AgentResource) (demand : Demand) (text : String)
    (preferred_order : Option (List String)) (result : Result SelectionError Choice)
    (choice : Choice)
    → result ≡ ok choice
    → Selects resources demand text preferred_order result
    → IsChoice resources demand choice
Selects-IsChoice resources demand text _ _ choice e (declared class c _ _ h) =
    subst (IsChoice resources demand) (ok-inj e) h
Selects-IsChoice resources demand text _ _ choice e (given order c _ h) =
    subst (IsChoice resources demand) (ok-inj e) h
Selects-IsChoice resources demand text _ _ choice e (refused _) = absurd (ground (arith, e))

admitted_resource :
    (resources : Dict AgentResource) (demand : Demand) (k : String)
    → admits resources demand k ≡ true
    → (resource : AgentResource) × (lookup k resources ≡ some resource)
      × (is_admitted demand k resource ≡ true)
admitted_resource resources demand k h = elim (Option-cases (lookup k resources)) [
  | inl missing ↦ absurd (ground (arith, missing))
  | inr (resource, found) ↦ (resource, found, rw found at h)
]

is_local-only : (s : DataSensitivity) → is_local s ≡ true → s ≡ local_only
is_local-only local_only h = refl
is_local-only cloud_eligible h = absurd (ground arith)

is_admitted-local :
    (demand : Demand) (k : String) (resource : AgentResource)
    → demand.data_sensitivity ≡ some "local-only"
    → is_admitted demand k resource ≡ true
    → resource.data_sensitivity ≡ local_only
unfolding is_admitted
is_admitted-local demand k resource want fits =
    is_local-only resource.data_sensitivity (ground (arith, ap wants_local want))

-- Under the sensitivity `local-only`, every candidate of a selection from a dict of resources is a
-- resource that is kept local, whatever the order, the priorities and the other requirements are.
pub select_resource_candidates_local :
    (resources : Dict AgentResource) (demand : Demand) (text : String)
    (preferred_order : Option (List String)) (choice : Choice) (k : String)
    → IsDict resources
    → select_resource_candidates resources demand text preferred_order ≡ ok choice
    → demand.data_sensitivity ≡ some "local-only"
    → contains k choice.candidates ≡ true
    → (resource : AgentResource) × (lookup k resources ≡ some resource)
      × (resource.data_sensitivity ≡ local_only)
select_resource_candidates_local resources demand text preferred_order choice k unique run want
      held =
    let chosen : IsChoice resources demand choice =
      Selects-IsChoice resources demand text preferred_order
        (select_resource_candidates resources demand text preferred_order) choice run
        (select_resource_candidates_outcome resources demand text preferred_order unique) in
    let (resource, found, fits) =
      admitted_resource resources demand k (sym (chosen.complete k) ∙ held) in
    (resource, found, is_admitted-local demand k resource want fits)
