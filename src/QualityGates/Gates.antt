-- ===== src/QualityGates/Gates.antt =====
-- `risk_thresholds_by_level`, `required_checkpoints` and `slice_confidence_score`.
use softos_sdd_orchestrator.Prelude.{
  ℕ, ◌+◌, ◌*◌, String, Bool, true, false, ◌||◌, none, some, List, [], ◌∷◌, ◌++◌, ◌==◌,
  if◌then◌else◌,
}
use Prim.Native.Nat.{min}
use softos_sdd_orchestrator.Prelude.Lists.{length}
use softos_sdd_orchestrator.Prelude.Strip.{strip}
use softos_sdd_orchestrator.Prelude.Sets.{stripped}
use softos_sdd_orchestrator.Prelude.Text.{concat}
use softos_sdd_orchestrator.Prelude.Dict.{Dict, lookup}
use softos_sdd_orchestrator.Prelude.Result.{Result, ok, ◌>>=◌}
use softos_sdd_orchestrator.QualityGates.Risk.{
  Slice, RiskLevel, low, medium, high, critical, GateError, classify_slice_risk,
}

-- risk_thresholds_by_level()[level]
abbrev pub risk_threshold : RiskLevel → ℕ
risk_threshold low = 50
risk_threshold medium = 65
risk_threshold high = 80
risk_threshold critical = 90

-- risk_level in {"high", "critical"}
abbrev pub is_risky : RiskLevel → Bool
is_risky low = false
is_risky medium = false
is_risky high = true
is_risky critical = true

abbrev pub extend_if : Bool → List String → List String → List String
extend_if test more required = if test then required ++ more else required

unfoldable pub required_checkpoints : String → RiskLevel → Bool → List String
unfolding concat
required_checkpoints stage_name risk_level api_dto_change =
    if stage_name == "plan"
    then "plan-stage-pass" ∷ []
    else if stage_name == "slice_start"
    then "slice_start-stage-pass" ∷ []
    else if stage_name == "ci_spec"
    then extend_if api_dto_change ("generate-contracts-pass" ∷ "contract-verify-pass" ∷ [])
        ("ci_spec-stage-pass" ∷ "drift-check-pass" ∷ [])
    else if stage_name == "ci_repo"
    then "ci_repo-stage-pass" ∷ []
    else if stage_name == "ci_integration"
    then extend_if (is_risky risk_level) ("ci-integration-extended-pass" ∷ [])
        ("ci_integration-stage-pass" ∷ [])
    else if stage_name == "release_promote"
    then extend_if (is_risky risk_level) ("additional-reviewer-pass" ∷ [])
        ("confidence-threshold-pass" ∷ [])
    else if stage_name == "release_verify" || stage_name == "infra_apply"
    then concat (stage_name ∷ "-stage-pass" ∷ []) ∷ []
    else []

-- The status of each stage that is recorded.
abbrev pub StageRecords : Type 0
StageRecords = Dict String

-- str(stage_records.get(stage, {}).get("status")), where a missing one reads "None"
abbrev pub status_of : StageRecords → String → String
status_of records stage = elim (lookup stage records) [ none ↦ "None" | some status ↦ status ]

-- `_is_stage_healthy`
abbrev pub is_stage_healthy : String → Bool
is_stage_healthy status = status == "passed" || status == "skipped"

abbrev pub points : Bool → ℕ → ℕ
points test n = if test then n else 0

abbrev pub test_points : List String → ℕ
test_points [] = 3
test_points (t ∷ ts) = min 15 (length (t ∷ ts) * 5)

abbrev pub risk_bonus : RiskLevel → ℕ
risk_bonus low = 20
risk_bonus medium = 12
risk_bonus high = 6
risk_bonus critical = 0

pub record Score : Type 0 where
  pub slice : String
  pub risk_level : RiskLevel
  pub score : ℕ

-- The sum of the parts, before it is capped.
unfoldable pub total_of : Slice → StageRecords → (contract_ok drift_ok : Bool) → RiskLevel → ℕ
unfolding lookup stripped
total_of slice records contract_ok drift_ok level =
    points (is_stage_healthy (status_of records "ci_spec")) 40
    + points (is_stage_healthy (status_of records "ci_repo")) 30
    + points (is_stage_healthy (status_of records "ci_integration")) 15
    + test_points (stripped slice.linked_tests)
    + risk_bonus level
    + points contract_ok 15
    + points drift_ok 10

unfoldable pub slice_confidence_score :
    Slice → StageRecords → (contract_ok drift_ok : Bool) → Result GateError Score
unfolding classify_slice_risk total_of strip
slice_confidence_score slice records contract_ok drift_ok = classify_slice_risk slice >>= λ risk.
    ok (record {
      slice = strip slice.name;
      risk_level = risk.level;
      score = min 100 (total_of slice records contract_ok drift_ok risk.level);
    })
