-- ===== src/QualityGates/Risk.antt =====
-- `classify_slice_risk`, `detect_api_dto_change` and `max_risk_level`.
use softos_sdd_orchestrator.Prelude.{
  ℕ, String, Bool, false, ◌||◌, Option, none, some, List, [], ◌∷◌, if◌then◌else◌, leb, ltb,
}
use softos_sdd_orchestrator.Prelude.Lists.{length}
use softos_sdd_orchestrator.Prelude.Strip.{lower}
use softos_sdd_orchestrator.Prelude.Sets.{has, non_blank}
use softos_sdd_orchestrator.Prelude.Text.{concat}
use softos_sdd_orchestrator.Prelude.Result.{Result, ok, err, ◌>>=◌}

-- What the gates read of a slice, its lists of items as texts.
pub record Slice : Type 0 where
  pub name : String
  pub owned_targets : List String
  pub linked_tests : List String

-- A plan, if it is an object; a slice that is not an object is none.
abbrev pub PlanPayload : Type 0
PlanPayload = Option (List (Option Slice))

-- RISK_LEVELS
pub data RiskLevel : Type 0 where
  low medium high critical : RiskLevel

-- RISK_INDEX
abbrev pub risk_index : RiskLevel → ℕ
risk_index low = 0
risk_index medium = 1
risk_index high = 2
risk_index critical = 3

pub record Classification : Type 0 where
  pub level : RiskLevel
  pub reasons : List String

-- The exception of Python for a loop variable that no round of the loop has bound.
pub data GateError : Type 0 where
  unbound_target : GateError

-- any(token in target for token in tokens)
unfoldable pub has_any : List String → String → Bool
has_any [] target = false
has_any (token ∷ tokens) target = has target token || has_any tokens target

abbrev pub critical_tokens : List String
critical_tokens =
    "infra/" ∷ "terraform" ∷ "production" ∷ "security" ∷ "auth" ∷ "payment" ∷ "migrations" ∷ []

abbrev pub high_tokens : List String
high_tokens = "/api/" ∷ "dto" ∷ "contract" ∷ "schema" ∷ "release" ∷ "gateway" ∷ []

abbrev pub api_dto_tokens : List String
api_dto_tokens = "/api/" ∷ "dto" ∷ "contract" ∷ "schema" ∷ []

unfoldable pub lowered : List String → List String
unfolding lower
lowered [] = []
lowered (item ∷ items) = lower item ∷ lowered items

-- The targets that the classification reads.
unfoldable pub targets_of : Slice → List String
unfolding lowered non_blank
targets_of slice = lowered (non_blank slice.owned_targets)

-- The loop: the first target with a critical token, at which it breaks.
unfoldable pub first_critical : List String → Option String
unfolding has_any
first_critical [] = none
first_critical (target ∷ targets) =
    let rest = first_critical targets in
    if has_any critical_tokens target then some target else rest

-- `target` after the loop has run to its end.
unfoldable pub last_target : List String → Option String
last_target [] = none
last_target (target ∷ []) = some target
last_target (_ ∷ target ∷ targets) = last_target (target ∷ targets)

abbrev pub below_critical : List String → String → Classification
below_critical targets target =
    if has_any high_tokens target
    then record { level = high; reasons = "api-dto-or-contract-surface" ∷ [] }
    else if leb 6 (length targets)
    then record { level = medium; reasons = "large-write-set" ∷ [] }
    else record { level = low; reasons = [] }

abbrev pub after_loop : List String → Option String → Result GateError Classification
after_loop targets none = err unbound_target
after_loop targets (some target) = ok (below_critical targets target)

abbrev pub with_critical : List String → Option String → Result GateError Classification
with_critical targets (some target) =
    ok (record { level = critical; reasons = concat ("critical-target:" ∷ target ∷ []) ∷ [] })
with_critical targets none = after_loop targets (last_target targets)

unfoldable pub classify_slice_risk : Slice → Result GateError Classification
unfolding targets_of first_critical last_target has_any concat
classify_slice_risk slice = with_critical (targets_of slice) (first_critical (targets_of slice))

unfoldable pub any_api_dto : List String → Bool
unfolding has_any lower
any_api_dto [] = false
any_api_dto (target ∷ targets) = has_any api_dto_tokens (lower target) || any_api_dto targets

unfoldable pub slices_change_api : List (Option Slice) → Bool
unfolding any_api_dto
slices_change_api [] = false
slices_change_api (none ∷ slices) = slices_change_api slices
slices_change_api (some slice ∷ slices) =
    any_api_dto slice.owned_targets || slices_change_api slices

abbrev pub detect_api_dto_change : PlanPayload → Bool
detect_api_dto_change none = false
detect_api_dto_change (some slices) = slices_change_api slices

-- The loop over the slices, from the level that is the maximum so far.
unfoldable pub max_from : RiskLevel → List (Option Slice) → Result GateError RiskLevel
unfolding classify_slice_risk
max_from maximum [] = ok maximum
max_from maximum (none ∷ slices) = max_from maximum slices
max_from maximum (some slice ∷ slices) = classify_slice_risk slice >>= λ risk.
    max_from (if ltb (risk_index maximum) (risk_index risk.level) then risk.level else maximum)
      slices

unfoldable pub max_risk_level : PlanPayload → Result GateError RiskLevel
unfolding max_from
max_risk_level none = ok low
max_risk_level (some slices) = max_from low slices
