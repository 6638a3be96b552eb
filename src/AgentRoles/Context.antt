-- ===== src/AgentRoles/Context.antt =====
-- `normalize_role_context` and `resolve_invocation_role`, whose arguments are texts or None.
use softos_sdd_orchestrator.Prelude.{
  String, Bool, true, false, not, ◌||◌, ◌&&◌, Option, none, some, [], ◌∷◌, ◌==◌, if◌then◌else◌,
}
use softos_sdd_orchestrator.Prelude.Result.{Result, ok, err, ◌>>=◌, ◌>>◌, ensure}
use softos_sdd_orchestrator.Prelude.Strip.{strip, lower}
use softos_sdd_orchestrator.Prelude.Text.{or_default, concat}

-- SUPPORTED_AGENT_ROLES
pub data Role : Type 0 where
  orchestrator worker reviewer : Role

abbrev pub role_text : Role → String
role_text orchestrator = "orchestrator"
role_text worker = "worker"
role_text reviewer = "reviewer"

abbrev pub role_named : String → Option Role
role_named name =
    if name == "orchestrator"
    then some orchestrator
    else if name == "worker"
    then some worker
    else if name == "reviewer"
    then some reviewer
    else none

pub record AgentRoleContext : Type 0 where
  pub role : Role
  pub run_id : String
  pub parent_run_id : Option String
  pub handoff_ref : Option String

-- `AgentRoleError`, by what its messages show.
pub data RoleError : Type 0 where
  elevation : RoleError
  unsupported_role : String → RoleError
  needs_run_id : Role → RoleError
  orchestrator_parent : RoleError
  needs_parent needs_handoff : Role → RoleError

-- str(value or "")
abbrev pub text_of : Option String → String
text_of none = ""
text_of (some value) = value

-- text or None
abbrev pub or_none : String → Option String
or_none text = if text == "" then none else some text

abbrev pub is_some : Option String → Bool
is_some none = false
is_some (some _) = true

abbrev pub is_orchestrator : Role → Bool
is_orchestrator orchestrator = true
is_orchestrator worker = false
is_orchestrator reviewer = false

abbrev pub supported : String → Option Role → Result RoleError Role
supported text none = err (unsupported_role text)
supported text (some role) = ok role

abbrev pub run_for : Role → String → Result RoleError String
run_for role run_text =
    if run_text == ""
    then if is_orchestrator role then ok "standalone-orchestrator" else err (needs_run_id role)
    else ok run_text

abbrev pub check_parent : Role → Option String → Result RoleError (Unit {0})
check_parent orchestrator parent = ensure (not (is_some parent)) orchestrator_parent
check_parent role parent = ensure (is_some parent) (needs_parent role)

unfoldable pub normalize_role_context :
    (role run_id parent_run_id handoff_ref : Option String) → Result RoleError AgentRoleContext
unfolding strip lower
normalize_role_context role run_id parent_run_id handoff_ref = do
  let name = lower (strip (or_default (text_of role) "orchestrator"))
  found ← supported name (role_named name)
  let parent = or_none (strip (text_of parent_run_id))
  let handoff = or_none (strip (text_of handoff_ref))
  run_text ← run_for found (strip (text_of run_id))
  check_parent found parent
  ensure (is_orchestrator found || is_some handoff) (needs_handoff found)
  ok (record { role = found; run_id = run_text; parent_run_id = parent; handoff_ref = handoff })

-- The role that is resolved for a process with, or without, an inherited run.
abbrev pub effective_role : (explicit : String) (inherited : Bool) → String
effective_role explicit inherited =
    or_default explicit (if inherited then "worker" else "orchestrator")

-- The run of a child without one of its own: `uuid` is the text of a fresh id.
abbrev pub effective_run : (inherited : String) → Option String → (uuid : String) → Option String
effective_run inherited run_id uuid =
    if not (inherited == "") && (strip (text_of run_id) == "")
    then some (concat (inherited ∷ ":child:" ∷ uuid ∷ []))
    else run_id

unfoldable pub resolve_invocation_role :
    (role run_id parent_run_id handoff_ref env_run_id : Option String) (uuid : String)
    → Result RoleError AgentRoleContext
unfolding normalize_role_context concat
resolve_invocation_role role run_id parent_run_id handoff_ref env_run_id uuid = do
  let inherited = strip (text_of env_run_id)
  let explicit = lower (strip (text_of role))
  ensure (inherited == "" || not (explicit == "orchestrator")) elevation
  normalize_role_context (some (effective_role explicit (not (inherited == ""))))
      (effective_run inherited run_id uuid) (or_none (or_default (text_of parent_run_id) inherited))
      handoff_ref
