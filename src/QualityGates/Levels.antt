-- ===== src/QualityGates/Levels.antt =====
-- About `max_risk_level`: the level of a plan.
use softos_sdd_orchestrator.Prelude.{
  String, ◌==◌, eq_iff, ◌≤◌, Option, none, some, List, [], ◌∷◌, ◌≡◌, ◌⊎◌, refl, sym, ◌∙◌, subst,
  arith, Bool-cases, inl, inr, ltb, if◌then◌else◌,
}
use softos_sdd_orchestrator.Prelude.Lists.{All, filter}
use softos_sdd_orchestrator.Prelude.Strip.{strip}
use softos_sdd_orchestrator.Prelude.Sets.{non_blank}
use softos_sdd_orchestrator.Prelude.Result.{Result, ok, err, ◌>>=◌}
use softos_sdd_orchestrator.QualityGates.Risk.{
  Slice, RiskLevel, low, risk_index, Classification, GateError, unbound_target, lowered, targets_of,
  classify_slice_risk, max_from, max_risk_level,
}
use softos_sdd_orchestrator.QualityGates.LastTarget.{
  classify_slice_risk_err, classify_slice_risk_untargeted,
}

-- Each slice has a level, and none is above this one.
abbrev pub IsBound : RiskLevel → List (Option Slice) → Type 0
IsBound level [] = Unit
IsBound level (none ∷ slices) = IsBound level slices
IsBound level (some slice ∷ slices) =
    ((risk : Classification) × (classify_slice_risk slice ≡ ok risk)
      × (risk_index risk.level ≤ risk_index level))
    × IsBound level slices

-- The level is the one at the start or that of a slice.
abbrev pub IsAttained : (start level : RiskLevel) → List (Option Slice) → Type 0
IsAttained start level [] = level ≡ start
IsAttained start level (none ∷ slices) = IsAttained start level slices
IsAttained start level (some slice ∷ slices) =
    ((risk : Classification) × (classify_slice_risk slice ≡ ok risk) × (risk.level ≡ level))
    ⊎ IsAttained start level slices

-- Each target of the slice is blank.
abbrev pub IsUntargeted : Slice → Type 0
IsUntargeted slice = All (λ target. strip target ≡ "") slice.owned_targets

-- Some slice is untargeted.
abbrev pub HasUntargeted : List (Option Slice) → Type 0
HasUntargeted [] = ⊥
HasUntargeted (none ∷ slices) = HasUntargeted slices
HasUntargeted (some slice ∷ slices) = IsUntargeted slice ⊎ HasUntargeted slices

pub data Maximum (slices : List (Option Slice)) (start : RiskLevel)
    : Result GateError RiskLevel → Type 0 where
  greatest :
      (level : RiskLevel)
      → risk_index start ≤ risk_index level
      → IsBound level slices
      → IsAttained start level slices
      → ¬ HasUntargeted slices
      → Maximum slices start (ok level)
  untargeted : HasUntargeted slices → Maximum slices start (err unbound_target)

no_targets :
    (targets : List String)
    → lowered (non_blank targets) ≡ []
    → All (λ target. strip target ≡ "") targets
unfolding lowered non_blank filter
no_targets [] h = tt
no_targets (target ∷ targets) h = elim (Bool-cases (strip target == "")) [
  | inl blank ↦ ((eq_iff (strip target) "").0 blank, no_targets targets (rw blank at h))
  | inr full ↦ absurd (ground (arith, rw full at h))
]

blank_targets :
    (targets : List String)
    → All (λ target. strip target ≡ "") targets
    → lowered (non_blank targets) ≡ []
unfolding lowered non_blank filter
blank_targets [] h = refl
blank_targets (target ∷ targets) (blank, h) =
    rw ((eq_iff (strip target) "").1 blank) (blank_targets targets h)

unclassified-IsUntargeted :
    (slice : Slice) (e : GateError) → classify_slice_risk slice ≡ err e → IsUntargeted slice
unfolding targets_of
unclassified-IsUntargeted slice e h =
    no_targets slice.owned_targets (classify_slice_risk_err slice e h)

IsUntargeted-unclassified :
    (slice : Slice) → IsUntargeted slice → classify_slice_risk slice ≡ err unbound_target
unfolding targets_of
IsUntargeted-unclassified slice h =
    classify_slice_risk_untargeted slice (blank_targets slice.owned_targets h)

abbrev above : RiskLevel → RiskLevel → RiskLevel
above maximum level = if ltb (risk_index maximum) (risk_index level) then level else maximum

above-left : (a b : RiskLevel) → risk_index a ≤ risk_index (above a b)
above-left a b = elim (Bool-cases (ltb (risk_index a) (risk_index b))) [
  | inl less ↦ rw less (ground (arith, less))
  | inr more ↦ rw more (omega arith)
]

above-right : (a b : RiskLevel) → risk_index b ≤ risk_index (above a b)
above-right a b = elim (Bool-cases (ltb (risk_index a) (risk_index b))) [
  | inl less ↦ rw less (omega arith)
  | inr more ↦ rw more (ground (arith, more))
]

above-either : (a b : RiskLevel) → (above a b ≡ b) ⊎ (above a b ≡ a)
above-either a b = elim (Bool-cases (ltb (risk_index a) (risk_index b))) [
  | inl less ↦ inl (rw less refl)
  | inr more ↦ inr (rw more refl)
]

from_start :
    (a b : RiskLevel) (level : RiskLevel) (slices : List (Option Slice))
    → IsAttained a level slices
    → a ≡ b
    → IsAttained b level slices
from_start a b level slices h e = subst (λ s. IsAttained s level slices) e h

-- The start is attained, or a slice after it.
IsAttained-either :
    (start level : RiskLevel) (slices : List (Option Slice))
    → IsAttained start level slices
    → (other : RiskLevel) → (level ≡ start) ⊎ IsAttained other level slices
IsAttained-either start level [] h other = inl h
IsAttained-either start level (none ∷ slices) h other = IsAttained-either start level slices h other
IsAttained-either start level (some slice ∷ slices) (inl here) other = inr (inl here)
IsAttained-either start level (some slice ∷ slices) (inr later) other =
    elim (IsAttained-either start level slices later other) [
      | inl e ↦ inl e
      | inr found ↦ inr (inr found)
    ]

ok_or_err : {risk : Classification} {e : GateError} → ok risk ≡ err e → ⊥
ok_or_err h = ground (arith, h)

one_more :
    (slice : Slice) (slices : List (Option Slice)) (start : RiskLevel) (risk : Classification)
    (result : Result GateError RiskLevel)
    → classify_slice_risk slice ≡ ok risk
    → Maximum slices (above start risk.level) result
    → Maximum (some slice ∷ slices) start result
one_more slice slices start risk _ found (untargeted h) = untargeted (inr h)
one_more slice slices start risk _ found (greatest level over bound attained targeted) =
    greatest level (omega (arith, above-left start risk.level, over))
      ((risk, found, omega (arith, above-right start risk.level, over)), bound)
      (elim (above-either start risk.level) [
        | inr kept ↦ inr (from_start (above start risk.level) start level slices attained kept)
        | inl raised ↦
            elim (IsAttained-either (above start risk.level) level slices attained start) [
              | inl e ↦ inl (risk, found, sym (e ∙ raised))
              | inr later ↦ inr later
            ]
      ])
      (none_untargeted targeted)
  where
    none_untargeted : ¬ HasUntargeted slices → ¬ HasUntargeted (some slice ∷ slices)
    none_untargeted others (inl empty) =
        ok_or_err (sym found ∙ IsUntargeted-unclassified slice empty)
    none_untargeted others (inr later) = others later

max_from-Maximum :
    (slices : List (Option Slice)) (start : RiskLevel)
    → Maximum slices start (max_from start slices)
unfolding max_from
max_from-Maximum [] start = greatest start (omega arith) tt refl (λ h. h)
max_from-Maximum (none ∷ slices) start = skip (max_from-Maximum slices start)
  where
    skip :
        {r : Result GateError RiskLevel} → Maximum slices start r → Maximum (none ∷ slices) start r
    skip (greatest level over bound attained targeted) = greatest level over bound attained targeted
    skip (untargeted h) = untargeted h
max_from-Maximum (some slice ∷ slices) start =
    split (λ s. max_from-Maximum slices s) (classify_slice_risk slice) refl
  where
    split :
        ((s : RiskLevel) → Maximum slices s (max_from s slices))
        → (r : Result GateError Classification) → classify_slice_risk slice ≡ r
        → Maximum
            (some slice ∷ slices)
            start
            (r >>= λ risk. max_from (above start risk.level) slices)
    split rest (ok risk) e = one_more slice slices start risk _ e (rest (above start risk.level))
    split rest (err unbound_target) e =
        untargeted (inl (unclassified-IsUntargeted slice unbound_target e))

-- If each slice of a plan has a target that is not blank, each has a level, and the level of the plan is
-- the greatest of low and these: it is low or that of a slice, and no slice is above it. If some slice has
-- none, the plan has no level, but an exception is raised.
pub max_risk_level_outcome :
    (slices : List (Option Slice)) → Maximum slices low (max_risk_level (some slices))
unfolding max_risk_level
max_risk_level_outcome slices = max_from-Maximum slices low
