-- ===== src/AgentRoles/Independent.antt =====
-- About `select_reviewer_candidates`: who may review.
use softos_sdd_orchestrator.Prelude.{
  String, Bool, true, false, not, ◌&&◌, ◌||◌, some, List, ◌++◌, ◌==◌, ◌≡◌,
}
use softos_sdd_orchestrator.Prelude.Lists.{All, contains}
use softos_sdd_orchestrator.Prelude.Order.{head?}
use softos_sdd_orchestrator.Prelude.Strip.{strip}
use softos_sdd_orchestrator.Prelude.Result.{Result, ok, err}
use softos_sdd_orchestrator.Prelude.Dict.{Dict, lookup, sorted_items, holds_at}
use softos_sdd_orchestrator.AgentResources.Data.{AgentResource, CostTier}
use softos_sdd_orchestrator.AgentResources.Selection.{Demand}
use softos_sdd_orchestrator.AgentResources.Sound.{admits}
use softos_sdd_orchestrator.AgentRoles.Reviewers.{
  Excluded, ReviewError, no_implementer, no_reviewer, Implementer, implementer_of, is_other,
  implementer_cost_tiers, same_family, Review,
}

-- Whether a resource is there and is not the implementer's.
abbrev pub independent : Implementer → Dict AgentResource → String → Bool
independent implementer resources k =
    holds_at (λ _ resource. is_other implementer resource) k (lookup k resources)

-- Who may review: a resource that the demand admits and that is not the implementer's.
abbrev pub may_review : Implementer → Dict AgentResource → Demand → String → Bool
may_review implementer resources demand k =
    admits resources demand k && independent implementer resources k

-- The candidates fall in two parts: first none of a cost tier of the implementer, then all of one.
pub record IsByFamily (resources : Dict AgentResource) (tiers : List CostTier)
    (candidates : List String) : Type 0 where
  pub others : List String
  pub same : List String
  pub parts : candidates ≡ others ++ same
  pub others_differ : All (λ k. not (same_family resources tiers k) ≡ true) others
  pub same_agree : All (λ k. same_family resources tiers k ≡ true) same

-- The cost tiers of the resources that are the implementer's.
abbrev pub tiers_of : Implementer → Dict AgentResource → List CostTier
tiers_of implementer resources = implementer_cost_tiers implementer (sorted_items resources)

-- The outcomes of a selection of reviewers.
pub data Reviews (resources : Dict AgentResource) (demand : Demand) (executor resolution : String)
    : Result ReviewError Review → Type 0 where
  unnamed :
      (strip executor == "" || strip resolution == "") ≡ true
      → Reviews resources demand executor resolution (err no_implementer)
  nobody :
      (reasons : List Excluded)
      → ((k : String) → may_review (implementer_of executor resolution) resources demand k ≡ false)
      → Reviews resources demand executor resolution (err (no_reviewer reasons))
  chosen :
      (review : Review)
      → ((k : String)
          → contains k review.candidates
            ≡ may_review (implementer_of executor resolution) resources demand k)
      → head? review.candidates ≡ some review.selected
      → IsByFamily resources
          (tiers_of (implementer_of executor resolution) resources)
          review.candidates
      → Reviews resources demand executor resolution (ok review)
