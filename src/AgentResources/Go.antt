-- ===== src/AgentResources/Go.antt =====
-- About `resolve_go_model`: what it answers.
use softos_sdd_orchestrator.Prelude.{
  String, true, Option, none, some, List, [], ◌∷◌, ◌==◌, ◌≡◌, ◌≢◌, ◌⊎◌, refl, sym, ◌∙◌, arith,
  Bool-cases, inl, inr, eq_iff,
}
use Prim.Native.String.{◌++◌ as ◌followed_by◌}
use softos_sdd_orchestrator.Prelude.Lists.{contains}
use softos_sdd_orchestrator.Prelude.Text.{text_leb}
use softos_sdd_orchestrator.Prelude.Order.{true-false}
use softos_sdd_orchestrator.Prelude.Result.{Result, ok, err}
use softos_sdd_orchestrator.Prelude.Strip.{strip}
use softos_sdd_orchestrator.AgentResources.Data.{
  Availability, available, busy, capacity_exhausted, quota_exhausted, auth_unconfigured,
  auth_failed, model_unavailable, provider_down, cooldown, unknown,
}
use softos_sdd_orchestrator.AgentResources.Availability.{Evidence, absent, bytes, text, other}
use softos_sdd_orchestrator.AgentResources.Evident.{Says, text-Says, bytes-Says, other-Says}
use softos_sdd_orchestrator.AgentResources.Models.{
  Outcome, returned, raised, Discovery, from_discovery, ModelResolutionResult, ModelError,
  bad_tie_break, candidates, is_named, resolve_go_model, auth_outcome, auth_state, go_model,
  go_with, unresolved,
}
use softos_sdd_orchestrator.AgentResources.Least.{Resolves, least, nothing, lexical_first-Resolves}

-- The authorization, from the evidence and the outcome of its discovery if there is one: evidence that
-- is given decides, and else what was discovered.
pub data Authorized : Evidence → Option (Outcome Evidence) → Outcome Availability → Type 0 where
  given :
      (evidence : Evidence) (discover : Option (Outcome Evidence)) (state : Availability)
      → Says evidence state
      → Authorized evidence discover (returned state)
  missing : Authorized absent none (returned auth_unconfigured)
  none_found : Authorized absent (some (returned absent)) (returned auth_unconfigured)
  found :
      (evidence : Evidence) (state : Availability)
      → Says evidence state
      → Authorized absent (some (returned evidence)) (returned state)
  failed : (class_name : String) → Authorized absent (some (raised class_name)) (raised class_name)

-- A property of all texts among the discovered items.
abbrev pub AllTexts : (String → Type 0) → List (Option String) → Type 0
AllTexts P [] = Unit
AllTexts P (none ∷ items) = AllTexts P items
AllTexts P (some item ∷ items) = P item × AllTexts P items

abbrev pub IsItem : String → List (Option String) → Type 0
IsItem model_id [] = ⊥
IsItem model_id (none ∷ items) = IsItem model_id items
IsItem model_id (some item ∷ items) = (strip item ≡ model_id) ⊎ IsItem model_id items

-- The least of the stripped texts that are not blank, or that there is none.
pub data IsLeastModel (items : List (Option String)) : ModelResolutionResult → Type 0 where
  first :
      (model_id : String)
      → model_id ≢ ""
      → IsItem model_id items
      → AllTexts (λ item. strip item ≢ "" → text_leb model_id (strip item) ≡ true) items
      → IsLeastModel items
          (record { availability = available; model_id = some model_id; reason = none })
  all_blank :
      AllTexts (λ item. strip item ≡ "") items
      → IsLeastModel items (unresolved model_unavailable "MODEL_UNAVAILABLE")

-- The answer to an authorization; the tie break and the discovery of models only matter if it is
-- available.
pub data GoAnswers (discovery : Discovery) (tie_break : String)
    : Outcome Availability → Result ModelError ModelResolutionResult → Type 0 where
  auth_raised :
      (class_name : String)
      → GoAnswers discovery tie_break
          (raised class_name)
          (ok (unresolved unknown ("auth_discovery_error:" followed_by class_name)))
  unconfigured :
      GoAnswers discovery tie_break
        (returned auth_unconfigured)
        (ok (unresolved auth_unconfigured "auth_unconfigured"))
  refused :
      (state : Availability)
      → state ≢ available
      → state ≢ auth_unconfigured
      → GoAnswers discovery tie_break (returned state) (ok (unresolved state "auth_not_available"))
  bad_tie :
      tie_break ≢ "lexical"
      → GoAnswers discovery tie_break (returned available) (err (bad_tie_break tie_break))
  models_raised :
      (class_name : String)
      → tie_break ≡ "lexical"
      → discovery ≡ raised class_name
      → GoAnswers discovery tie_break
          (returned available)
          (ok (unresolved unknown ("discovery_error:" followed_by class_name)))
  models :
      (items : List (Option String)) (result : ModelResolutionResult)
      → tie_break ≡ "lexical"
      → discovery ≡ returned items
      → IsLeastModel items result
      → GoAnswers discovery tie_break (returned available) (ok result)

candidates-IsItem :
    (model_id : String) (items : List (Option String))
    → contains model_id (candidates is_named items) ≡ true
    → IsItem model_id items
unfolding candidates
candidates-IsItem model_id [] h = true-false (sym h)
candidates-IsItem model_id (none ∷ items) h = candidates-IsItem model_id items h
candidates-IsItem model_id (some item ∷ items) h = elim (Bool-cases (strip item == "")) [
  | inl blank ↦ inr (candidates-IsItem model_id items (rw blank at h))
  | inr full ↦ elim (Bool-cases (strip item == model_id)) [
    | inl same ↦ inl ((eq_iff (strip item) model_id).0 same)
    | inr differ ↦ inr (candidates-IsItem model_id items (rw differ at (rw full at h)))
  ]
]

candidates-AllTexts :
    (P : String → Type 0) (items : List (Option String))
    → ((model_id : String) → contains model_id (candidates is_named items) ≡ true → P model_id)
    → AllTexts (λ item. strip item ≢ "" → P (strip item)) items
unfolding candidates
candidates-AllTexts P [] h = tt
candidates-AllTexts P (none ∷ items) h = candidates-AllTexts P items h
candidates-AllTexts P (some item ∷ items) h = elim (Bool-cases (strip item == "")) [
  | inl blank ↦ (
    λ full. absurd (full ((eq_iff (strip item) "").0 blank)),
    candidates-AllTexts P items (λ model_id held. h model_id (rw blank held)),
  )
  | inr full ↦ (
    λ _. h (strip item) (rw full (rw ((eq_iff (strip item) (strip item)).1 refl) refl)),
    candidates-AllTexts P items (λ model_id held. h model_id (rw full (ground (arith, held)))),
  )
]

blank-AllTexts :
    (items : List (Option String))
    → AllTexts (λ item. strip item ≢ "" → ⊥) items
    → AllTexts (λ item. strip item ≡ "") items
blank-AllTexts [] h = tt
blank-AllTexts (none ∷ items) h = blank-AllTexts items h
blank-AllTexts (some item ∷ items) (own, h) = elim (Bool-cases (strip item == "")) [
  | inl blank ↦ ((eq_iff (strip item) "").0 blank, blank-AllTexts items h)
  | inr full ↦ absurd (own (λ e. true-false (sym ((eq_iff (strip item) "").1 e) ∙ full)))
]

Resolves-IsLeastModel :
    (items : List (Option String)) (result : ModelResolutionResult)
    → Resolves is_named items result
    → IsLeastModel items result
Resolves-IsLeastModel items _ (least model_id eligible held small) =
    first model_id (λ e. ground (arith, eligible, (eq_iff model_id "").1 e))
      (candidates-IsItem model_id items held)
      (candidates-AllTexts (λ m. text_leb model_id m ≡ true) items small)
Resolves-IsLeastModel items _ (nothing empty) = all_blank (
    blank-AllTexts items
      (candidates-AllTexts (λ _. ⊥) items (λ m held. true-false (sym (rw empty at held)))))

discovered_models :
    (discovery : Discovery) (tie_break : String)
    → GoAnswers discovery tie_break (returned available) (go_model discovery tie_break available)
discovered_models discovery tie_break = elim (Bool-cases (tie_break == "lexical")) [
  | inr differ ↦
      rw differ (bad_tie (λ e. true-false (sym ((eq_iff tie_break "lexical").1 e) ∙ differ)))
  | inl lexical ↦ rw lexical (by_outcome ((eq_iff tie_break "lexical").0 lexical) discovery refl)
]
  where
    by_outcome :
        tie_break ≡ "lexical"
        → (outcome : Discovery) → discovery ≡ outcome
        → GoAnswers discovery tie_break (returned available) (ok (from_discovery is_named outcome))
    by_outcome tie (raised class_name) e = models_raised class_name tie e
    by_outcome tie (returned items) e =
        models items _ tie e (Resolves-IsLeastModel items _ (lexical_first-Resolves is_named items))

go_model-GoAnswers :
    (discovery : Discovery) (tie_break : String) (state : Availability)
    → GoAnswers discovery tie_break (returned state) (go_model discovery tie_break state)
go_model-GoAnswers discovery tie_break available = discovered_models discovery tie_break
go_model-GoAnswers discovery tie_break auth_unconfigured = unconfigured
go_model-GoAnswers discovery tie_break busy = refused busy (λ e. cc e) (λ e. cc e)
go_model-GoAnswers discovery tie_break capacity_exhausted =
    refused capacity_exhausted (λ e. cc e) (λ e. cc e)
go_model-GoAnswers discovery tie_break quota_exhausted =
    refused quota_exhausted (λ e. cc e) (λ e. cc e)
go_model-GoAnswers discovery tie_break auth_failed = refused auth_failed (λ e. cc e) (λ e. cc e)
go_model-GoAnswers discovery tie_break model_unavailable =
    refused model_unavailable (λ e. cc e) (λ e. cc e)
go_model-GoAnswers discovery tie_break provider_down = refused provider_down (λ e. cc e) (λ e. cc e)
go_model-GoAnswers discovery tie_break cooldown = refused cooldown (λ e. cc e) (λ e. cc e)
go_model-GoAnswers discovery tie_break unknown = refused unknown (λ e. cc e) (λ e. cc e)

abbrev authorization : Outcome Evidence → Outcome Availability
authorization (raised class_name) = raised class_name
authorization (returned evidence) = returned (auth_state evidence)

auth_outcome-Authorized :
    (auth_evidence : Evidence) (auth_discover : Option (Outcome Evidence))
    → Authorized auth_evidence auth_discover
        (authorization (auth_outcome auth_evidence auth_discover))
auth_outcome-Authorized absent none = missing
auth_outcome-Authorized absent (some (raised class_name)) = failed class_name
auth_outcome-Authorized absent (some (returned absent)) = none_found
auth_outcome-Authorized absent (some (returned (bytes o))) = found (bytes o) _ (bytes-Says o)
auth_outcome-Authorized absent (some (returned (text s))) = found (text s) _ (text-Says s)
auth_outcome-Authorized absent (some (returned other)) = found other _ other-Says
auth_outcome-Authorized (bytes o) discover = given (bytes o) discover _ (bytes-Says o)
auth_outcome-Authorized (text s) discover = given (text s) discover _ (text-Says s)
auth_outcome-Authorized other discover = given other discover _ other-Says

go_with-GoAnswers :
    (discovery : Discovery) (tie_break : String) (outcome : Outcome Evidence)
    → GoAnswers discovery tie_break (authorization outcome) (go_with discovery tie_break outcome)
go_with-GoAnswers discovery tie_break (raised class_name) = auth_raised class_name
go_with-GoAnswers discovery tie_break (returned evidence) =
    go_model-GoAnswers discovery tie_break (auth_state evidence)

-- A Go resolution decides the authorization first: by the evidence if it is given, else by what its
-- discovery returns, and without evidence from either it is AUTH_UNCONFIGURED; evidence says the state that
-- its text names without blanks around it and in any case, or UNKNOWN. An exception of the discovery answers UNKNOWN
-- with its class, and any state but AVAILABLE answers itself, whatever models and tie break there are. If it
-- is AVAILABLE, a tie break other than lexical is refused, an exception of the discovery of models answers
-- UNKNOWN with its class, and else the answer is the least of the discovered texts that are not blank,
-- stripped, or MODEL_UNAVAILABLE if all are blank.
pub resolve_go_model_outcome :
    (discovery : Discovery) (auth_evidence : Evidence) (auth_discover : Option (Outcome Evidence))
    (tie_break : String)
    → (auth : Outcome Availability) × Authorized auth_evidence auth_discover auth
      × GoAnswers discovery tie_break auth
          (resolve_go_model discovery auth_evidence auth_discover tie_break)
unfolding resolve_go_model
resolve_go_model_outcome discovery auth_evidence auth_discover tie_break = (
  authorization (auth_outcome auth_evidence auth_discover),
  auth_outcome-Authorized auth_evidence auth_discover,
  go_with-GoAnswers discovery tie_break (auth_outcome auth_evidence auth_discover),
)
