-- ===== src/AgentResources/Evident.antt =====
-- About `normalize_availability`: the state that a piece of evidence names.
use softos_sdd_orchestrator.Prelude.{
  String, Option, none, some, List, [], ◌∷◌, ◌==◌, ◌≡◌, ◌≢◌, ◌⊎◌, refl, sym, ◌∙◌, Bool-cases, inl,
  inr, eq_iff,
}
use softos_sdd_orchestrator.Prelude.Lists.{All}
use softos_sdd_orchestrator.Prelude.Order.{true-false}
use softos_sdd_orchestrator.Prelude.Strip.{strip}
use softos_sdd_orchestrator.Prelude.Upper.{upper}
use softos_sdd_orchestrator.AgentResources.Data.{
  Availability, available, busy, capacity_exhausted, quota_exhausted, auth_unconfigured,
  auth_failed, model_unavailable, provider_down, cooldown, unknown, availability_text,
  availability_states,
}
use softos_sdd_orchestrator.AgentResources.Availability.{
  Evidence, bytes, text, other, state_named, normalize_availability,
}

-- A text says the state whose name it is, without the blanks around it and in any case, and UNKNOWN when
-- it is the name of none.
pub data Names (s : String) : Availability → Type 0 where
  named : (state : Availability) → availability_text state ≡ upper (strip s) → Names s state
  unnamed : ((state : Availability) → availability_text state ≢ upper (strip s)) → Names s unknown

-- What evidence that is given says: a text what it names, and anything else UNKNOWN.
pub data Says : Evidence → Availability → Type 0 where
  by_text : (s : String) (state : Availability) → Names s state → Says (text s) state
  by_bytes : (s : String) (state : Availability) → Names s state → Says (bytes (some s)) state
  undecodable : Says (bytes none) unknown
  no_text : Says other unknown

state_named-cases :
    (name : String) (states : List Availability)
    → (availability_text (state_named name states) ≡ name)
      ⊎ ((state_named name states ≡ unknown) × All (λ state. availability_text state ≢ name) states)
unfolding state_named
state_named-cases name [] = inr (refl, tt)
state_named-cases name (state ∷ states) = elim (Bool-cases (availability_text state == name)) [
  | inl same ↦ rw same (inl ((eq_iff (availability_text state) name).0 same))
  | inr differ ↦ rw differ (elim (state_named-cases name states) [
    | inl found ↦ inl found
    | inr (lost, others) ↦ inr (
      lost,
      (λ e. true-false (sym ((eq_iff (availability_text state) name).1 e) ∙ differ), others),
    )
  ])
]

every_state :
    (P : Availability → Type 0) → All P availability_states → (state : Availability) → P state
every_state P (a, (b, (c, (d, (e, (f, (g, (h, (i, (j, _)))))))))) state = elim state as (λ k. P k) [
  | available ↦ a
  | busy ↦ b
  | capacity_exhausted ↦ c
  | quota_exhausted ↦ d
  | auth_unconfigured ↦ e
  | auth_failed ↦ f
  | model_unavailable ↦ g
  | provider_down ↦ h
  | cooldown ↦ i
  | unknown ↦ j
]

state_named-Names : (s : String) → Names s (state_named (upper (strip s)) availability_states)
state_named-Names s = elim (state_named-cases (upper (strip s)) availability_states) [
  | inl found ↦ named (state_named (upper (strip s)) availability_states) found
  | inr (lost, others) ↦
      rw lost (unnamed (every_state (λ state. availability_text state ≢ upper (strip s)) others))
]

pub text-Says : (s : String) → Says (text s) (normalize_availability (text s))
unfolding normalize_availability
text-Says s = by_text s _ (state_named-Names s)

pub bytes-Says : (o : Option String) → Says (bytes o) (normalize_availability (bytes o))
unfolding normalize_availability
bytes-Says none = undecodable
bytes-Says (some s) = by_bytes s _ (state_named-Names s)

pub other-Says : Says other (normalize_availability other)
unfolding normalize_availability
other-Says = no_text
