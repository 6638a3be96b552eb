-- ===== src/QualityGates/Tests.antt =====
-- Slices of a plan, and their gates.
use softos_sdd_orchestrator.Prelude.{
  ◌<◌, String, true, false, Option, none, some, List, [], ◌∷◌, ◌≡◌, refl, arith,
}
use softos_sdd_orchestrator.Prelude.Result.{ok, err}
use softos_sdd_orchestrator.Prelude.Strip.{
  is_space, lstrip, rstrip, strip, match_char, lower_char, lower,
}
use softos_sdd_orchestrator.Prelude.Text.{concat}
use softos_sdd_orchestrator.Prelude.Sets.{stripped, non_blank}
use softos_sdd_orchestrator.Prelude.Lists.{contains, filter}
use softos_sdd_orchestrator.Prelude.Dict.{lookup}
use softos_sdd_orchestrator.QualityGates.Risk.{
  Slice, low, high, critical, unbound_target, has_any, lowered, targets_of, first_critical,
  last_target, classify_slice_risk, any_api_dto, slices_change_api, detect_api_dto_change, max_from,
  max_risk_level,
}
use softos_sdd_orchestrator.QualityGates.Gates.{
  StageRecords, Score, total_of, slice_confidence_score, required_checkpoints,
}
use softos_sdd_orchestrator.QualityGates.LastTarget.{classify_slice_risk_last}
use softos_sdd_orchestrator.QualityGates.Levels.{Maximum, max_risk_level_outcome}
use softos_sdd_orchestrator.QualityGates.Scores.{
  slice_confidence_score_critical, required_checkpoints_monotone,
}

program : Unit {0}
unfolding is_space lstrip rstrip strip match_char lower_char lower concat stripped non_blank filter
    lookup has_any lowered targets_of first_critical last_target classify_slice_risk any_api_dto
    slices_change_api max_from max_risk_level total_of slice_confidence_score required_checkpoints
program = tt

abbrev slice : List String → Slice
slice targets = record { name = "s"; owned_targets = targets; linked_tests = "t" ∷ [] }

abbrev api_first : Slice
api_first = slice ("backend/API/orders.py" ∷ "frontend/ui/button.tsx" ∷ [])

abbrev other_first : Slice
other_first = slice ("docs/readme.md" ∷ "frontend/ui/button.tsx" ∷ [])

abbrev api_last : Slice
api_last = slice ("frontend/ui/button.tsx" ∷ "backend/API/orders.py" ∷ [])

abbrev migration : Slice
migration = slice ("backend/db/migrations/001_init.sql" ∷ [])

-- The same two targets in the other order are of another level.
api_first_low : classify_slice_risk api_first ≡ ok (record { level = low; reasons = [] })
unfolding program
api_first_low = refl

api_last_high :
    classify_slice_risk api_last
    ≡ ok (record { level = high; reasons = "api-dto-or-contract-surface" ∷ [] })
unfolding program
api_last_high = refl

api_changes : detect_api_dto_change (some (some api_first ∷ [])) ≡ true
unfolding program
api_changes = refl

no_target : max_risk_level (some (none ∷ some (slice (" " ∷ [])) ∷ [])) ≡ err unbound_target
unfolding program
no_target = refl

calm : first_critical (targets_of api_first) ≡ none
unfolding program
calm = refl

calm_too : first_critical (targets_of other_first) ≡ none
unfolding program
calm_too = refl

same_last : last_target (targets_of api_first) ≡ last_target (targets_of other_first)
unfolding program
same_last = refl

classify_slice_risk_last_example : classify_slice_risk api_first ≡ classify_slice_risk other_first
unfolding program
classify_slice_risk_last_example =
    classify_slice_risk_last api_first other_first calm calm_too same_last refl

abbrev slices : List (Option Slice)
slices = some api_first ∷ none ∷ some migration ∷ []

plan_critical : max_risk_level (some slices) ≡ ok critical
unfolding program
plan_critical = refl

max_risk_level_outcome_example : Maximum slices low (max_risk_level (some slices))
max_risk_level_outcome_example = max_risk_level_outcome slices

abbrev records : StageRecords
records = ("ci_spec", "failed") ∷ ("ci_repo", "passed") ∷ ("ci_integration", "skipped") ∷ []

abbrev migration_score : Score
migration_score = record { slice = "s"; risk_level = critical; score = 75 }

scored : slice_confidence_score migration records true true ≡ ok migration_score
unfolding program
scored = refl

slice_confidence_score_critical_example : 75 < 90
unfolding program
slice_confidence_score_critical_example =
    slice_confidence_score_critical migration records true true migration_score scored refl refl

required_checkpoints_monotone_example :
    contains "ci-integration-extended-pass" (required_checkpoints "ci_integration" critical true)
    ≡ true
unfolding program
required_checkpoints_monotone_example =
    required_checkpoints_monotone "ci_integration" "ci-integration-extended-pass" high critical
      false true (omega arith) (λ _. refl) refl
