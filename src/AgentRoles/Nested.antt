-- ===== src/AgentRoles/Nested.antt =====
-- About the contexts of roles: their shape, and that a nested process is never an orchestrator.
use softos_sdd_orchestrator.Prelude.{
  String, true, false, not, ◌||◌, Option, none, some, ◌==◌, if◌then◌else◌, ◌≡◌, ◌≢◌, refl, sym, ap,
  ◌∙◌, subst, arith, Bool-cases, inl, inr,
}
use mathlib.Core.Option.{some-injective}
use softos_sdd_orchestrator.Prelude.Result.{
  ok, err, ◌>>=◌, ensure, Holds, holds, fails, bind-Holds, weaken-Holds, ensure-Holds, ok-Holds,
}
use softos_sdd_orchestrator.Prelude.Strip.{
  is_space, lstrip, rstrip, strip, match_char, lower_char, lower,
}
use softos_sdd_orchestrator.Prelude.Normal.{lower-strip_again}
use softos_sdd_orchestrator.Prelude.Text.{or_default}
use softos_sdd_orchestrator.Prelude.Order.{true-false}
use softos_sdd_orchestrator.AgentRoles.Context.{
  Role, orchestrator, worker, reviewer, role_named, AgentRoleContext, elevation, needs_run_id,
  needs_handoff, text_of, or_none, is_some, is_orchestrator, supported, run_for, check_parent,
  normalize_role_context, effective_role, effective_run, resolve_invocation_role,
}

-- A context of a role: an orchestrator has no parent; a worker or a reviewer has one, and a handoff.
pub data IsContext : AgentRoleContext → Type 0 where
  standalone :
      (run_id : String) (handoff_ref : Option String)
      → (run_id == "") ≡ false
      → IsContext (record {
        role = orchestrator;
        run_id = run_id;
        parent_run_id = none;
        handoff_ref = handoff_ref;
      })
  nested :
      (role : Role) (run_id parent handoff : String)
      → role ≢ orchestrator
      → (run_id == "") ≡ false
      → (parent == "") ≡ false
      → (handoff == "") ≡ false
      → IsContext (record {
        role = role;
        run_id = run_id;
        parent_run_id = some parent;
        handoff_ref = some handoff;
      })

run_for-there :
    (role : Role) (text : String) → Holds (λ run. (run == "") ≡ false) (run_for role text)
run_for-there role text = elim (Bool-cases (text == "")) [
  | inl blank ↦ rw blank (of_role role)
  | inr other ↦ rw other (holds text other)
]
  where
    of_role :
        (r : Role)
        → Holds
            (λ run. (run == "") ≡ false)
            (if is_orchestrator r then ok "standalone-orchestrator" else err (needs_run_id r))
    of_role orchestrator = holds _ refl
    of_role worker = fails _
    of_role reviewer = fails _

or_none-there : (text s : String) → or_none text ≡ some s → (s == "") ≡ false
or_none-there text s h = elim (Bool-cases (text == "")) [
  | inl blank ↦ absurd (ground (arith, h, blank))
  | inr other ↦ subst (λ z. (z == "") ≡ false) (some-injective text s (rw other at h)) other
]

-- A context with the role and the parent that are given.
abbrev IsContextOf : Role → Option String → AgentRoleContext → Type 0
IsContextOf role parent context =
    IsContext context × (context.role ≡ role) × (context.parent_run_id ≡ parent)

shaped :
    (role : Role) (run_id : String) (parent handoff : Option String)
    → (run_id == "") ≡ false
    → ((s : String) → parent ≡ some s → (s == "") ≡ false)
    → ((s : String) → handoff ≡ some s → (s == "") ≡ false)
    → Holds (IsContextOf role parent) (
        check_parent role parent >>= λ _.
        ensure (is_orchestrator role || is_some handoff) (needs_handoff role) >>= λ _.
        ok (record { role = role; run_id = run_id; parent_run_id = parent; handoff_ref = handoff }))
shaped orchestrator run_id none handoff there p h =
    holds _ (standalone run_id handoff there, refl, refl)
shaped orchestrator run_id (some parent) handoff there p h = fails _
shaped worker run_id none handoff there p h = fails _
shaped worker run_id (some parent) none there p h = fails _
shaped worker run_id (some parent) (some handoff) there p h = holds _ (
  nested worker run_id parent handoff (λ e. cc e) there (p parent refl) (h handoff refl),
  refl,
  refl,
)
shaped reviewer run_id none handoff there p h = fails _
shaped reviewer run_id (some parent) none there p h = fails _
shaped reviewer run_id (some parent) (some handoff) there p h = holds _ (
  nested reviewer run_id parent handoff (λ e. cc e) there (p parent refl) (h handoff refl),
  refl,
  refl,
)

supported-Holds : (text : String) (o : Option Role) → Holds (λ r. o ≡ some r) (supported text o)
supported-Holds text none = fails _
supported-Holds text (some r) = holds r refl

-- What a normalized context takes from the role and the parent that are given.
abbrev Normalized : (role parent_run_id : Option String) → AgentRoleContext → Type 0
Normalized role parent_run_id context =
    IsContext context
    × (role_named (lower (strip (or_default (text_of role) "orchestrator"))) ≡ some context.role)
    × (context.parent_run_id ≡ or_none (strip (text_of parent_run_id)))

normalize_role_context-Normalized :
    (role run_id parent_run_id handoff_ref : Option String)
    → Holds
        (Normalized role parent_run_id)
        (normalize_role_context role run_id parent_run_id handoff_ref)
unfolding normalize_role_context
normalize_role_context-Normalized role run_id parent_run_id handoff_ref =
    let name : String = lower (strip (or_default (text_of role) "orchestrator")) in
    let parent : Option String = or_none (strip (text_of parent_run_id)) in
    let handoff : Option String = or_none (strip (text_of handoff_ref)) in
    bind-Holds _ (supported-Holds name (role_named name)) (λ found is_found.
      bind-Holds _ (run_for-there found (strip (text_of run_id))) (λ run there.
        weaken-Holds
          (λ context (shape, own_role, own_parent).
            (shape, is_found ∙ ap some (sym own_role), own_parent))
          (shaped found run parent handoff there (or_none-there (strip (text_of parent_run_id)))
            (or_none-there (strip (text_of handoff_ref))))))

-- A context that is normalized has a run; an orchestrator has no parent, and a worker or a reviewer has
-- a parent and a handoff, none of them empty, whatever texts are given.
pub normalize_role_context-IsContext :
    (role run_id parent_run_id handoff_ref : Option String) (context : AgentRoleContext)
    → normalize_role_context role run_id parent_run_id handoff_ref ≡ ok context
    → IsContext context
normalize_role_context-IsContext role run_id parent_run_id handoff_ref context run =
    (ok-Holds (normalize_role_context-Normalized role run_id parent_run_id handoff_ref) run).0

role_named-orchestrator :
    (text : String) → role_named text ≡ some orchestrator → (text == "orchestrator") ≡ true
role_named-orchestrator text h = elim (Bool-cases (text == "orchestrator")) [
  | inl same ↦ same
  | inr other ↦ elim (Bool-cases (text == "worker")) [
    | inl w ↦ absurd (ground (arith, h, other, w))
    | inr x ↦ absurd (ground (arith, h, other, x))
  ]
]

worker_named : role_named (lower (strip "worker")) ≡ some worker
unfolding is_space lstrip rstrip strip match_char lower_char lower
worker_named = refl

or_default_kept : (text default : String) → (text == "") ≡ false → or_default text default ≡ text
or_default_kept text default there = rw there refl

kept :
    (explicit : String)
    → (explicit == "") ≡ false
    → lower (strip (or_default (effective_role explicit true) "orchestrator"))
      ≡ lower (strip explicit)
kept explicit there =
    ap (λ t. lower (strip (or_default t "orchestrator"))) (or_default_kept explicit "worker" there)
    ∙ ap (λ t. lower (strip t)) (or_default_kept explicit "orchestrator" there)

-- The effective role of a nested process does not name an orchestrator.
effective_role-nested :
    (explicit : String)
    → lower (strip explicit) ≡ explicit
    → (explicit == "orchestrator") ≡ false
    → role_named (lower (strip (or_default (effective_role explicit true) "orchestrator")))
      ≢ some orchestrator
effective_role-nested explicit settled other named = elim (Bool-cases (explicit == "")) [
  | inl blank ↦
      let here : role_named (lower (strip (or_default "worker" "orchestrator")))
          ≡ some orchestrator =
        rw blank at named in
      absurd (ground (arith, here, worker_named))
  | inr there ↦ true-false (
      sym (
        role_named-orchestrator explicit
          (subst (λ z. role_named z ≡ some orchestrator) (kept explicit there ∙ settled) named))
      ∙ other)
]

-- The parent that a nested process gets: its own, or the run it is in.
abbrev pub nested_parent : (inherited : String) → Option String → Option String
nested_parent inherited parent_run_id =
    or_none (strip (text_of (or_none (or_default (text_of parent_run_id) inherited))))

resolve_invocation_role-nested :
    (role run_id parent_run_id handoff_ref env_run_id : Option String) (uuid : String)
    → (strip (text_of env_run_id) == "") ≡ false
    → Holds
        (λ context.
          IsContext context
          × (context.role ≢ orchestrator)
          × (context.parent_run_id ≡ nested_parent (strip (text_of env_run_id)) parent_run_id))
        (resolve_invocation_role role run_id parent_run_id handoff_ref env_run_id uuid)
unfolding resolve_invocation_role
resolve_invocation_role-nested role run_id parent_run_id handoff_ref env_run_id uuid inside =
    let inherited : String = strip (text_of env_run_id) in
    let explicit : String = lower (strip (text_of role)) in
    let as_nested : effective_role explicit (not (inherited == "")) ≡ effective_role explicit true =
      ap (λ b. effective_role explicit (not b)) inside in
    bind-Holds _ (ensure-Holds (inherited == "" || not (explicit == "orchestrator")) elevation)
      (λ _ allowed.
        weaken-Holds
          (λ context (shape, named, parent). (
            shape,
            λ is_orchestrator.
                effective_role-nested explicit (lower-strip_again (text_of role))
                  (ground (arith, inside, allowed))
                  (subst
                    (λ t.
                      role_named (lower (strip (or_default t "orchestrator"))) ≡ some orchestrator)
                    as_nested (named ∙ ap some is_orchestrator)),
            parent,
          ))
          (normalize_role_context-Normalized
            (some (effective_role explicit (not (inherited == ""))))
            (effective_run inherited run_id uuid)
            (or_none (or_default (text_of parent_run_id) inherited)) handoff_ref))

-- A process that inherits a run id which is not blank never resolves to an orchestrator, whatever role,
-- ids and handoff it asks for: it is a worker or a reviewer with a run, a handoff and a parent, and the
-- parent is the inherited run unless it names another.
pub resolve_invocation_role_nested :
    (role run_id parent_run_id handoff_ref env_run_id : Option String) (uuid : String)
    (context : AgentRoleContext)
    → (strip (text_of env_run_id) == "") ≡ false
    → resolve_invocation_role role run_id parent_run_id handoff_ref env_run_id uuid ≡ ok context
    → IsContext context
      × (context.role ≢ orchestrator)
      × (context.parent_run_id ≡ nested_parent (strip (text_of env_run_id)) parent_run_id)
resolve_invocation_role_nested role run_id parent_run_id handoff_ref env_run_id uuid context inside
      run =
    ok-Holds
      (resolve_invocation_role-nested role run_id parent_run_id handoff_ref env_run_id uuid inside)
      run
