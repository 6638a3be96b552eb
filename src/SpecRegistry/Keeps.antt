-- ===== src/SpecRegistry/Keeps.antt =====
-- Each piece of a method keeps the audit a history of the rows.
use mathlib.Core.Option
use softos_sdd_orchestrator.Prelude.{
  ℕ, ◌+◌, String, ◌≡◌, refl, sym, ◌∙◌, ap, ◌⊎◌, inl, inr, none, some, arith, ◌==◌, eq_iff, eq_refl,
  if◌then◌else◌, Bool-cases, Option-cases,
}
use softos_sdd_orchestrator.Prelude.Result.{ok}
use softos_sdd_orchestrator.Table.{insert}
use softos_sdd_orchestrator.Table.Laws.{
  select-insert, select-update, select-key, insert-IsUnique, update-IsUnique,
}
use softos_sdd_orchestrator.SpecRegistry.Data.{index, Spec, AuditEntry, Registry, Clock, spec_id_of}
use softos_sdd_orchestrator.SpecRegistry.Helpers.{
  find_spec, append_audit, update_spec, new_spec, created_entry, is_expired, expire_lock_if_needed,
  get_or_create_spec, unlocked,
}
use softos_sdd_orchestrator.SpecRegistry.Trail.{
  nothing, replay, IsRecorded, replay-snoc, IsTrail-snoc,
}

module _ (spec_id : String) (f : Spec → Spec) (keeps : (s : Spec) → (f s).spec_id ≡ s.spec_id)
    (entry : AuditEntry) (registry : Registry) where
  pub find-change :
      (j : String)
      → find_spec j (append_audit entry (update_spec spec_id f registry))
        ≡ (if spec_id == j then Option.map f (find_spec j registry) else find_spec j registry)
  unfolding find_spec append_audit update_spec
  find-change j = select-update spec_id_of spec_id j f registry.specs keeps

-- An UPDATE of a row and its entry in the audit.
pub change-IsRecorded :
    (spec_id : String) (row : Spec) (f : Spec → Spec) (entry : AuditEntry) (registry : Registry)
    → ((s : Spec) → (f s).spec_id ≡ s.spec_id)
    → find_spec spec_id registry ≡ some row
    → entry.spec_id ≡ spec_id
    → entry.from_state ≡ some row.state
    → entry.to_state ≡ some (f row).state
    → (index (f row).state ≡ index row.state) ⊎ (index (f row).state ≡ index row.state + 1)
    → IsRecorded registry
    → IsRecorded (append_audit entry (update_spec spec_id f registry))
unfolding append_audit update_spec insert
change-IsRecorded spec_id row f entry registry keeps found id from to move r = record {
  unique = update-IsUnique spec_id_of spec_id f registry.specs keeps r.unique;
  trail =
      IsTrail-snoc registry.audit entry nothing r.trail
        (from
          ∙ sym (
              ap (replay registry.audit nothing) id
              ∙ r.replays spec_id
              ∙ ap (Option.map (λ (s : Spec). s.state)) found))
        (rw (from, to) move);
  replays = λ j. rw (replay-snoc registry.audit entry nothing) (
      rw (find-change spec_id f keeps entry registry j)
        (ground (arith, eq_iff entry.spec_id j, eq_iff spec_id j, r.replays j)));
}

pub create-IsRecorded :
    (spec_id : String) (now stamp : ℕ) (registry : Registry)
    → find_spec spec_id registry ≡ none
    → IsRecorded registry
    → IsRecorded (
        append_audit
          (created_entry spec_id stamp)
          (record registry { specs = insert (new_spec spec_id now) registry.specs }))
unfolding append_audit find_spec
create-IsRecorded spec_id now stamp registry absent r = record {
  unique = insert-IsUnique spec_id_of (new_spec spec_id now) registry.specs absent r.unique;
  trail =
      unfold insert in
      IsTrail-snoc registry.audit (created_entry spec_id stamp) nothing r.trail
        (sym (r.replays spec_id ∙ ap (Option.map (λ (s : Spec). s.state)) absent)) refl;
  replays = λ j. rw (select-insert spec_id_of (new_spec spec_id now) j registry.specs absent) (
      unfold insert in
      rw (replay-snoc registry.audit (created_entry spec_id stamp) nothing)
        (ground (arith, r.replays j)));
}

-- What the methods know of the record that they hold: the row of the table, but for `updated_at`.
pub record Tracks (spec_id : String) (held : Spec × Registry) : Type 0 where
  pub recorded : IsRecorded held.1
  pub row : Spec
  pub found : find_spec spec_id held.1 ≡ some row
  pub spec_id_same : held.0.spec_id ≡ spec_id
  pub state_same : held.0.state ≡ row.state
  pub assignee_same : held.0.assignee ≡ row.assignee
  pub token_same : held.0.lock_token ≡ row.lock_token
  pub expires_same : held.0.lock_expires_at ≡ row.lock_expires_at

pub found-Tracks :
    (spec_id : String) (spec : Spec) (registry : Registry)
    → find_spec spec_id registry ≡ some spec
    → IsRecorded registry
    → Tracks spec_id (spec, registry)
unfolding find_spec
found-Tracks spec_id spec registry found r = record {
  recorded = r;
  row = spec;
  found = found;
  spec_id_same = select-key spec_id_of spec_id registry.specs found;
  state_same = refl;
  assignee_same = refl;
  token_same = refl;
  expires_same = refl;
}

pub expire_lock-Tracks :
    (clock : Clock) (source : String) (spec_id : String) (spec : Spec) (registry : Registry)
    → Tracks spec_id (spec, registry)
    → Tracks spec_id (expire_lock_if_needed clock source spec registry)
unfolding expire_lock_if_needed
expire_lock-Tracks clock source spec_id spec registry t =
    elim (Bool-cases (is_expired clock.checked spec)) [
      | inl late ↦ rw late (record {
        recorded =
            change-IsRecorded spec.spec_id t.row (unlocked clock.expired) _ registry (λ s. refl)
              (rw t.spec_id_same t.found) refl (ap some t.state_same) (ap some t.state_same)
              (inl refl) t.recorded;
        row = unlocked clock.expired t.row;
        found = rw t.spec_id_same (
            rw (find-change spec_id (unlocked clock.expired) (λ s. refl) _ registry spec_id)
              (rw (eq_refl, t.found)));
        spec_id_same = t.spec_id_same;
        state_same = t.state_same;
        assignee_same = refl;
        token_same = refl;
        expires_same = refl;
      })
      | inr held ↦ rw held t
    ]

pub get_or_create_found :
    (clock : Clock) (spec_id : String) (registry : Registry) (spec : Spec)
    → find_spec spec_id registry ≡ some spec
    → get_or_create_spec clock spec_id registry ≡ ok (spec, registry)
unfolding get_or_create_spec
get_or_create_found clock spec_id registry spec found = ground arith

-- The registry with a row for a spec that had none.
abbrev pub with_new : Clock → String → Registry → Registry
with_new clock spec_id registry =
    append_audit (created_entry spec_id clock.created_audit)
      (record registry { specs = insert (new_spec spec_id clock.created) registry.specs })

pub find-with_new :
    (clock : Clock) (spec_id j : String) (registry : Registry)
    → find_spec spec_id registry ≡ none
    → find_spec j (with_new clock spec_id registry)
      ≡ (if spec_id == j then some (new_spec spec_id clock.created) else find_spec j registry)
unfolding find_spec append_audit
find-with_new clock spec_id j registry absent =
    select-insert spec_id_of (new_spec spec_id clock.created) j registry.specs absent

-- The row that was inserted is read back: REGISTRY_WRITE_FAILED is never raised.
pub get_or_create_absent :
    (clock : Clock) (spec_id : String) (registry : Registry)
    → find_spec spec_id registry ≡ none
    → get_or_create_spec clock spec_id registry
      ≡ ok (new_spec spec_id clock.created, with_new clock spec_id registry)
unfolding get_or_create_spec
get_or_create_absent clock spec_id registry absent =
    ground (arith, find-with_new clock spec_id spec_id registry absent, eq_refl spec_id)

-- What `claim_spec` works on: the registry, with the row created if there was none.
pub get_or_create-Tracks :
    (clock : Clock) (spec_id : String) (registry : Registry)
    → IsRecorded registry
    → (held : Spec × Registry) × (get_or_create_spec clock spec_id registry ≡ ok held)
      × Tracks spec_id held
get_or_create-Tracks clock spec_id registry r = elim (Option-cases (find_spec spec_id registry)) [
  | inl absent ↦ (
    (new_spec spec_id clock.created, with_new clock spec_id registry),
    get_or_create_absent clock spec_id registry absent,
    found-Tracks spec_id _ _ (rw (find-with_new clock spec_id spec_id registry absent) (rw eq_refl))
        (create-IsRecorded spec_id clock.created clock.created_audit registry absent r),
  )
  | inr (spec, found) ↦ (
    (spec, registry),
    get_or_create_found clock spec_id registry spec found,
    found-Tracks spec_id spec registry found r,
  )
]
