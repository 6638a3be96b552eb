-- ===== src/AgentResources/Data.antt =====
-- Resources, the vocabulary of availability, and the declared orders of preference.
use softos_sdd_orchestrator.Prelude.{
  ℕ, String, List, [], ◌∷◌, Option, none, some, ◌==◌, if◌then◌else◌,
}
use softos_sdd_orchestrator.Prelude.Int.{ℤ}

-- AVAILABILITY_STATES
pub data Availability : Type 0 where
  available busy capacity_exhausted quota_exhausted auth_unconfigured auth_failed : Availability
  model_unavailable provider_down cooldown unknown : Availability

abbrev pub availability_text : Availability → String
availability_text available = "AVAILABLE"
availability_text busy = "BUSY"
availability_text capacity_exhausted = "CAPACITY_EXHAUSTED"
availability_text quota_exhausted = "QUOTA_EXHAUSTED"
availability_text auth_unconfigured = "AUTH_UNCONFIGURED"
availability_text auth_failed = "AUTH_FAILED"
availability_text model_unavailable = "MODEL_UNAVAILABLE"
availability_text provider_down = "PROVIDER_DOWN"
availability_text cooldown = "COOLDOWN"
availability_text unknown = "UNKNOWN"

abbrev pub availability_states : List Availability
availability_states =
    available ∷ busy ∷ capacity_exhausted ∷ quota_exhausted ∷ auth_unconfigured ∷ auth_failed
    ∷ model_unavailable ∷ provider_down ∷ cooldown ∷ unknown ∷ []

-- MODEL_RESOLUTION_POLICIES
pub data ModelResolution : Type 0 where
  wrapper_profile worker_profile dynamic_free dynamic_go process_override : ModelResolution

-- COST_TIERS
pub data CostTier : Type 0 where
  local cloud_free cloud_paid_low : CostTier

-- DATA_SENSITIVITY_CLASSES
pub data DataSensitivity : Type 0 where
  local_only cloud_eligible : DataSensitivity

-- `AgentResource`; the only tie break is `lexical`.
pub record AgentResource : Type 0 where
  pub resource_id : String
  pub executor_id : String
  pub capabilities : List String
  pub capacity : ℕ
  pub cost_tier : CostTier
  pub selection_priority : ℤ
  pub model_resolution : ModelResolution
  pub data_sensitivity : DataSensitivity

-- SUPPORTED_WORK_CLASSES
pub data WorkClass : Type 0 where
  micro bounded architecture independent_review : WorkClass

-- PREFERRED_ORDER_BY_WORK_CLASS
abbrev pub preferred_order_of : WorkClass → List String
preferred_order_of micro = "opencode-local" ∷ "opencode-free" ∷ []
preferred_order_of bounded = "opencode-local" ∷ "opencode-free" ∷ []
preferred_order_of architecture = "codex" ∷ "cursor" ∷ "opencode-go" ∷ []
preferred_order_of independent_review = "codex" ∷ "cursor" ∷ "opencode-free" ∷ []

abbrev pub work_class : String → Option WorkClass
work_class text =
    if text == "micro"
    then some micro
    else if text == "bounded"
    then some bounded
    else if text == "architecture"
    then some architecture
    else if text == "independent_review"
    then some independent_review
    else none
