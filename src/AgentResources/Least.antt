-- ===== src/AgentResources/Least.antt =====
-- About `resolve_free_model`: which model it resolves to.
use softos_sdd_orchestrator.Prelude.{
  String, Bool, true, Option, none, some, List, [], ◌∷◌, ◌==◌, ◌≡◌, refl, sym, ap, ◌∙◌, subst,
  arith, Bool-cases, Option-cases, inl, inr, eq_iff,
}
use softos_sdd_orchestrator.Prelude.Lists.{contains}
use softos_sdd_orchestrator.Prelude.Strip.{strip}
use softos_sdd_orchestrator.Prelude.Sets.{sorted_set}
use softos_sdd_orchestrator.Prelude.Order.{
  head?, IsLeast, head?-sorted_set, head?-sorted_set_congr, contains-sorted_set,
}
use softos_sdd_orchestrator.AgentResources.Data.{available, model_unavailable}
use softos_sdd_orchestrator.AgentResources.Models.{
  returned, ModelResolutionResult, candidates, is_free, lexical_first, resolve_free_model,
  unresolved, with_tie_break,
}

candidates-eligible :
    (p : String → Bool) (m : String) (items : List (Option String))
    → contains m (candidates p items) ≡ true
    → p m ≡ true
unfolding candidates
candidates-eligible p m [] h = absurd (ground arith)
candidates-eligible p m (none ∷ items) h = candidates-eligible p m items h
candidates-eligible p m (some item ∷ items) h = elim (Bool-cases (p (strip item))) [
  | inl fits ↦ elim (Bool-cases (strip item == m)) [
    | inl same ↦ subst (λ z. p z ≡ true) ((eq_iff (strip item) m).0 same) fits
    | inr other ↦ candidates-eligible p m items (ground (arith, fits, other))
  ]
  | inr unfit ↦ candidates-eligible p m items (ground (arith, unfit))
]

-- The answer over a list of discovered items: the least eligible one, or none when there is none.
pub data Resolves (eligible : String → Bool) (items : List (Option String))
    : ModelResolutionResult → Type 0 where
  least :
      (model_id : String)
      → eligible model_id ≡ true
      → contains model_id (candidates eligible items) ≡ true
      → IsLeast model_id (candidates eligible items)
      → Resolves eligible items
          (record { availability = available; model_id = some model_id; reason = none })
  nothing :
      candidates eligible items ≡ []
      → Resolves eligible items (unresolved model_unavailable "MODEL_UNAVAILABLE")

head?-sorted_set-some :
    (x : String) (xs : List String) → (a : String) × (head? (sorted_set (x ∷ xs)) ≡ some a)
head?-sorted_set-some x xs = elim (Option-cases (head? (sorted_set (x ∷ xs)))) [
  | inl empty ↦ absurd (gone (sorted_set (x ∷ xs)) empty (contains-sorted_set x (x ∷ xs)))
  | inr found ↦ found
]
  where
    gone : (zs : List String) → head? zs ≡ none → contains x zs ≡ contains x (x ∷ xs) → ⊥
    gone [] h c = ground (arith, eq_iff x x)
    gone (z ∷ zs) h c = ground arith

lexical_first_of :
    (p : String → Bool) (items : List (Option String)) (cs : List String)
    → candidates p items ≡ cs
    → Resolves p items (lexical_first cs)
unfolding lexical_first
lexical_first_of p items [] e = nothing e
lexical_first_of p items (c ∷ cs) e =
    let (m, first) = head?-sorted_set-some c cs in
    let (held, small) = head?-sorted_set (c ∷ cs) m first in
    let found : contains m (candidates p items) ≡ true = ap (contains m) e ∙ held in
    rw first (least m (candidates-eligible p m items found) found (subst (IsLeast m) (sym e) small))

pub lexical_first-Resolves :
    (p : String → Bool) (items : List (Option String))
    → Resolves p items (lexical_first (candidates p items))
lexical_first-Resolves p items = lexical_first_of p items (candidates p items) refl

lexical_first_congr :
    (xs ys : List String)
    → ((k : String) → contains k xs ≡ contains k ys)
    → lexical_first xs ≡ lexical_first ys
unfolding lexical_first
lexical_first_congr [] [] same = refl
lexical_first_congr [] (y ∷ ys) same = absurd (ground (arith, same y, eq_iff y y))
lexical_first_congr (x ∷ xs) [] same = absurd (ground (arith, same x, eq_iff x x))
lexical_first_congr (x ∷ xs) (y ∷ ys) same =
    ap (λ o. record { availability = available; model_id = o; reason = none })
      (head?-sorted_set_congr (x ∷ xs) (y ∷ ys) same)

-- Two discoveries whose eligible stripped texts are the same set resolve to the same free model, with
-- any tie break: neither the order of discovery nor what it repeats decides.
pub resolve_free_model_congr :
    (xs ys : List (Option String)) (tie_break : String)
    → ((k : String) → contains k (candidates is_free xs) ≡ contains k (candidates is_free ys))
    → resolve_free_model (returned xs) tie_break ≡ resolve_free_model (returned ys) tie_break
unfolding resolve_free_model
resolve_free_model_congr xs ys tie_break same =
    ap (with_tie_break tie_break)
      (lexical_first_congr (candidates is_free xs) (candidates is_free ys) same)
