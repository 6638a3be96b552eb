-- ===== src/SpecRegistry/Trail.antt =====
-- The audit table read as a history: what it says of each spec's state, and when it makes sense.
use mathlib.Core.Option
use softos_sdd_orchestrator.Prelude.{
  ◌+◌, String, ◌≡◌, refl, ◌⊎◌, Option, none, some, List, [], ◌∷◌, ◌++◌, ◌==◌, if◌then◌else◌,
}
use softos_sdd_orchestrator.Table.{select}
use softos_sdd_orchestrator.Table.Laws.{IsUnique}
use softos_sdd_orchestrator.SpecRegistry.Data.{
  RegistryState, index, Spec, AuditEntry, Registry, spec_id_of, no_specs,
}
use softos_sdd_orchestrator.SpecRegistry.Helpers.{find_spec}

abbrev pub States : Type 0
States = String → Option RegistryState

abbrev pub nothing : States
nothing spec_id = none

-- The states after an entry.
abbrev pub after : AuditEntry → States → States
after entry states spec_id = if entry.spec_id == spec_id then entry.to_state else states spec_id

pub replay : List AuditEntry → States → States
replay [] states = states
replay (e ∷ es) states = replay es (after e states)

-- A spec begins as `new`; an entry keeps its state or moves it one step along the chain.
abbrev pub IsMove : Option RegistryState → Option RegistryState → Type 0
IsMove none (some to) = index to ≡ 0
IsMove (some from) (some to) = (index to ≡ index from) ⊎ (index to ≡ index from + 1)
IsMove _ none = ⊥

-- Each entry starts from the state that the entries before it gave.
abbrev pub IsTrail : States → List AuditEntry → Type 0
IsTrail states [] = Unit
IsTrail states (e ∷ es) =
    (e.from_state ≡ states e.spec_id) × IsMove e.from_state e.to_state × IsTrail (after e states) es

-- One row to a spec, and an audit that is a history which ends in the states of the rows.
pub record IsRecorded (registry : Registry) : Type 0 where
  pub unique : IsUnique spec_id_of registry.specs
  pub trail : IsTrail nothing registry.audit
  pub replays :
      (spec_id : String)
      → replay registry.audit nothing spec_id
        ≡ Option.map (λ (spec : Spec). spec.state) (find_spec spec_id registry)

pub replay-snoc :
    (es : List AuditEntry) (e : AuditEntry) (states : States)
    → replay (es ++ e ∷ []) states ≡ after e (replay es states)
unfolding replay
replay-snoc [] e states = refl
replay-snoc (x ∷ es) e states = replay-snoc es e (after x states)

pub IsTrail-snoc :
    (es : List AuditEntry) (e : AuditEntry) (states : States)
    → IsTrail states es
    → e.from_state ≡ replay es states e.spec_id
    → IsMove e.from_state e.to_state
    → IsTrail states (es ++ e ∷ [])
unfolding replay
IsTrail-snoc [] e states t from move = (from, move, tt)
IsTrail-snoc (x ∷ es) e states t from move =
    (t.0, t.1, IsTrail-snoc es e (after x states) t.2 from move)

pub no_specs-IsRecorded : IsRecorded no_specs
unfolding replay find_spec select
no_specs-IsRecorded = record { unique = tt; trail = tt; replays = λ spec_id. refl }
