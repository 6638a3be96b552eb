-- ===== src/QualityGates/LastTarget.antt =====
-- About `classify_slice_risk`: which targets it looks at.
use softos_sdd_orchestrator.Prelude.{
  String, Option, none, some, List, [], ◌∷◌, ◌≡◌, refl, sym, ap, ◌∙◌, arith, leb,
}
use softos_sdd_orchestrator.Prelude.Lists.{length}
use softos_sdd_orchestrator.Prelude.Result.{err}
use softos_sdd_orchestrator.QualityGates.Risk.{
  Slice, GateError, unbound_target, targets_of, first_critical, last_target, with_critical,
  after_loop, classify_slice_risk,
}

-- Without a target that is critical, a slice is classified by its last target, and by whether it has six
-- targets: two slices that agree on these get the same classification, whatever their other targets are.
pub classify_slice_risk_last :
    (a b : Slice)
    → first_critical (targets_of a) ≡ none
    → first_critical (targets_of b) ≡ none
    → last_target (targets_of a) ≡ last_target (targets_of b)
    → leb 6 (length (targets_of a)) ≡ leb 6 (length (targets_of b))
    → classify_slice_risk a ≡ classify_slice_risk b
unfolding classify_slice_risk
classify_slice_risk_last a b a_calm b_calm same size =
    ap (with_critical (targets_of a)) a_calm
    ∙ ap (after_loop (targets_of a)) same
    ∙ by_size (last_target (targets_of b))
    ∙ sym (ap (with_critical (targets_of b)) b_calm)
  where
    by_size : (o : Option String) → after_loop (targets_of a) o ≡ after_loop (targets_of b) o
    by_size none = refl
    by_size (some t) = rw size refl

last_target-some : (t : String) (ts : List String) → (u : String) × (last_target (t ∷ ts) ≡ some u)
unfolding last_target
last_target-some t [] = (t, refl)
last_target-some t (u ∷ ts) = last_target-some u ts

with_critical_err :
    (ts : List String) (o : Option String) (e : GateError) → with_critical ts o ≡ err e → ts ≡ []
with_critical_err [] o e h = refl
with_critical_err (t ∷ ts) (some c) e h = absurd (ground (arith, h))
with_critical_err (t ∷ ts) none e h =
    let (u, found) = last_target-some t ts in
    absurd (ground (arith, sym (ap (after_loop (t ∷ ts)) found) ∙ h))

-- Only a slice without targets is not classified.
pub classify_slice_risk_err :
    (slice : Slice) (e : GateError) → classify_slice_risk slice ≡ err e → targets_of slice ≡ []
unfolding classify_slice_risk
classify_slice_risk_err slice e h =
    with_critical_err (targets_of slice) (first_critical (targets_of slice)) e h

with_critical_empty :
    (ts : List String) → ts ≡ [] → with_critical ts (first_critical ts) ≡ err unbound_target
unfolding first_critical last_target
with_critical_empty [] h = refl
with_critical_empty (t ∷ ts) h = absurd (ground (arith, h))

-- A slice without targets is not classified.
pub classify_slice_risk_untargeted :
    (slice : Slice) → targets_of slice ≡ [] → classify_slice_risk slice ≡ err unbound_target
unfolding classify_slice_risk
classify_slice_risk_untargeted slice h = with_critical_empty (targets_of slice) h
