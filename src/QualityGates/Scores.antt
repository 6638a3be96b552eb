-- ===== src/QualityGates/Scores.antt =====
-- About the checkpoints and the scores: how they depend on the risk.
use softos_sdd_orchestrator.Prelude.{
  ℕ, ◌≤◌, ◌<◌, String, Bool, true, false, List, [], ◌∷◌, ◌≡◌, ◌==◌, ◌||◌, refl, sym, ap, ◌∙◌, subst,
  arith, if◌then◌else◌,
}
use Prim.Native.Nat.{min}
use softos_sdd_orchestrator.Prelude.Order.{true-false, contains-append}
use softos_sdd_orchestrator.Prelude.Lists.{contains}
use softos_sdd_orchestrator.Prelude.Sets.{stripped}
use softos_sdd_orchestrator.Prelude.Text.{concat}
use softos_sdd_orchestrator.Prelude.Result.{ok, bind-ok, ok-inj}
use softos_sdd_orchestrator.QualityGates.Risk.{
  Slice, RiskLevel, low, medium, high, critical, risk_index, classify_slice_risk,
}
use softos_sdd_orchestrator.QualityGates.Gates.{
  StageRecords, Score, status_of, is_stage_healthy, points, test_points, risk_threshold, total_of,
  is_risky, extend_if, required_checkpoints, slice_confidence_score,
}

test_points_at_most : (ts : List String) → test_points ts ≤ 15
test_points_at_most [] = omega arith
test_points_at_most (t ∷ ts) = omega arith

points_at_most : (b : Bool) (n : ℕ) → points b n ≤ n
points_at_most true n = omega arith
points_at_most false n = omega arith

total_of-critical :
    (slice : Slice) (records : StageRecords) (contract_ok drift_ok : Bool)
    → is_stage_healthy (status_of records "ci_spec") ≡ false
    → total_of slice records contract_ok drift_ok critical ≤ 85
unfolding total_of
total_of-critical slice records contract_ok drift_ok failed =
    let spec : points (is_stage_healthy (status_of records "ci_spec")) 40 ≡ 0 =
      ap (λ b. points b 40) failed in
    omega (
      arith,
      spec,
      points_at_most (is_stage_healthy (status_of records "ci_repo")) 30,
      points_at_most (is_stage_healthy (status_of records "ci_integration")) 15,
      test_points_at_most (stripped slice.linked_tests),
      points_at_most contract_ok 15,
      points_at_most drift_ok 10,
    )

-- A slice of critical risk whose ci_spec stage neither passed nor was skipped stays below the threshold
-- of its level, however its other stages, tests, contracts and drift stand.
pub slice_confidence_score_critical :
    (slice : Slice) (records : StageRecords) (contract_ok drift_ok : Bool) (result : Score)
    → slice_confidence_score slice records contract_ok drift_ok ≡ ok result
    → result.risk_level ≡ critical
    → is_stage_healthy (status_of records "ci_spec") ≡ false
    → result.score < risk_threshold result.risk_level
unfolding slice_confidence_score
slice_confidence_score_critical slice records contract_ok drift_ok result run is_critical failed =
    let (risk, _, made) = bind-ok (classify_slice_risk slice) _ result run in
    let level : risk.level ≡ result.risk_level = ap (λ (s : Score). s.risk_level) (ok-inj made) in
    let score : min 100 (total_of slice records contract_ok drift_ok risk.level) ≡ result.score =
      ap (λ (s : Score). s.score) (ok-inj made) in
    let capped : min 100 (total_of slice records contract_ok drift_ok critical) ≡ result.score =
      subst (λ l. min 100 (total_of slice records contract_ok drift_ok l) ≡ result.score)
        (level ∙ is_critical) score in
    subst (λ l. result.score < risk_threshold l) (sym is_critical)
      (omega (arith, capped, total_of-critical slice records contract_ok drift_ok failed))

extend_if-contains :
    (a b : Bool) (k : String) (more required : List String)
    → (a ≡ true → b ≡ true)
    → contains k (extend_if a more required) ≡ true
    → contains k (extend_if b more required) ≡ true
extend_if-contains true true k more required h held = held
extend_if-contains true false k more required h held = absurd (true-false (sym (h refl)))
extend_if-contains false false k more required h held = held
extend_if-contains false true k more required h held =
    contains-append k required more ∙ rw held refl

is_risky-up :
    (a b : RiskLevel) → risk_index a ≤ risk_index b → is_risky a ≡ true → is_risky b ≡ true
is_risky-up low b h r = absurd (ground arith)
is_risky-up medium b h r = absurd (ground arith)
is_risky-up high high h r = refl
is_risky-up high critical h r = refl
is_risky-up critical critical h r = refl
is_risky-up high low h r = absurd (omega (arith, h))
is_risky-up high medium h r = absurd (omega (arith, h))
is_risky-up critical low h r = absurd (omega (arith, h))
is_risky-up critical medium h r = absurd (omega (arith, h))
is_risky-up critical high h r = absurd (omega (arith, h))

if-up :
    (test : Bool) (k : String) (x x' y y' : List String)
    → (contains k x ≡ true → contains k x' ≡ true)
    → (contains k y ≡ true → contains k y' ≡ true)
    → contains k (if test then x else y) ≡ true
    → contains k (if test then x' else y') ≡ true
if-up true k x x' y y' f g held = f held
if-up false k x x' y y' f g held = g held

-- The checkpoints of the stages that neither the risk nor a change adds to.
other_stage : String → List String
unfolding concat
other_stage stage_name =
    if stage_name == "release_verify" || stage_name == "infra_apply"
    then concat (stage_name ∷ "-stage-pass" ∷ []) ∷ []
    else []

-- What is required of a stage stays required when the risk rises and when an API or DTO change comes in,
-- for every stage name.
pub required_checkpoints_monotone :
    (stage_name k : String) (a b : RiskLevel) (api_a api_b : Bool)
    → risk_index a ≤ risk_index b
    → (api_a ≡ true → api_b ≡ true)
    → contains k (required_checkpoints stage_name a api_a) ≡ true
    → contains k (required_checkpoints stage_name b api_b) ≡ true
unfolding required_checkpoints other_stage
required_checkpoints_monotone stage_name k a b api_a api_b up api =
    let risky : is_risky a ≡ true → is_risky b ≡ true = is_risky-up a b up in
    if-up (stage_name == "plan") k _ _ _ _ (λ h. h)
      (if-up (stage_name == "slice_start") k _ _ _ _ (λ h. h)
        (if-up (stage_name == "ci_spec") k _ _ _ _
          (extend_if-contains api_a api_b k
            ("generate-contracts-pass" ∷ "contract-verify-pass" ∷ [])
            ("ci_spec-stage-pass" ∷ "drift-check-pass" ∷ []) api)
          (if-up (stage_name == "ci_repo") k ("ci_repo-stage-pass" ∷ []) ("ci_repo-stage-pass" ∷ [])
            _ _ (λ h. h)
            (if-up (stage_name == "ci_integration") k _ _ _ _
              (extend_if-contains (is_risky a) (is_risky b) k ("ci-integration-extended-pass" ∷ [])
                ("ci_integration-stage-pass" ∷ []) risky)
              (if-up (stage_name == "release_promote") k _ _ (other_stage stage_name)
                (other_stage stage_name)
                (extend_if-contains (is_risky a) (is_risky b) k ("additional-reviewer-pass" ∷ [])
                  ("confidence-threshold-pass" ∷ []) risky)
                (λ h. h))))))
