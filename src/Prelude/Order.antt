-- ===== src/Prelude/Order.antt =====
-- The order of texts is a linear order, and the least element of a set of texts.
use Prim.Native.String.{String}
use Prim.Native.String.compare
use mathlib.Core.Path.{◌≡◌, refl, sym, ◌∙◌, ap, subst}
use mathlib.Core.Logic.{inl, inr}
use mathlib.Core.Bool.{Bool, true, false, ◌||◌, ◌&&◌}
use mathlib.Core.Option.{Option, none, some}
use mathlib.Core.List.{List, [], ◌∷◌, ◌++◌}
use native.Mathlib.Omega.{arith}
use text.Mathlib.Text.{◌==◌}
use text.Mathlib.TextEquality.{eq_iff, path_by_compare}
use softos_sdd_orchestrator.Prelude.Tests.{Bool-cases, Option-cases}
use softos_sdd_orchestrator.Prelude.Text.{text_leb, text_leb-total, compare-swap, swap}
use softos_sdd_orchestrator.Prelude.Lists.{contains, filter}
use softos_sdd_orchestrator.Prelude.Sort.{IsSorted, sort-IsSorted, sort, insert_sorted}
use softos_sdd_orchestrator.Prelude.Sets.{dedupe, sorted_set}

pub text_leb_trans :
    (a b c : String) → text_leb a b ≡ true → text_leb b c ≡ true → text_leb a c ≡ true
unfolding text_leb
text_leb_trans String.[] String.[] c p q = q
text_leb_trans String.[] (String.◌∷◌ d t) String.[] p q = refl
text_leb_trans String.[] (String.◌∷◌ d t) (String.◌∷◌ e u) p q =
    ground (arith, compare.nil-cons e u)
text_leb_trans (String.◌∷◌ c s) String.[] e p q = absurd (ground (arith, compare.cons-nil c s))
text_leb_trans (String.◌∷◌ c s) (String.◌∷◌ d t) String.[] p q =
    absurd (ground (arith, compare.cons-nil d t))
text_leb_trans (String.◌∷◌ c s) (String.◌∷◌ d t) (String.◌∷◌ e u) p q = ground (
  arith,
  compare.cons-cons c d s t,
  compare.cons-cons d e t u,
  compare.cons-cons c e s u,
  text_leb_trans s t u,
)

pub true-false : true ≡ false → ⊥
true-false e = ground arith

pub text_leb_antisymm : (a b : String) → text_leb a b ≡ true → text_leb b a ≡ true → a ≡ b
unfolding text_leb swap
text_leb_antisymm a b p q = path_by_compare a b (ground (arith, compare-swap a b))

-- The first element of a list, as `ordered[0]`.
abbrev pub head? {ℓ} : {A : Type ℓ} → List A → Option A
head? [] = none
head? (x ∷ xs) = some x

-- Not after any text of the list.
abbrev pub IsLeast : String → List String → Type 0
IsLeast a xs = (x : String) → contains x xs ≡ true → text_leb a x ≡ true

contains-dedupe : (k : String) (xs : List String) → contains k (dedupe xs) ≡ contains k xs
unfolding dedupe
contains-dedupe k [] = refl
contains-dedupe k (x ∷ xs) = ground (arith, contains-dedupe k xs, contains-dedupe x xs, eq_iff x k)

contains-insert_sorted :
    (le : String → String → Bool) (k x : String) (xs : List String)
    → contains k (insert_sorted le x xs) ≡ contains k (x ∷ xs)
unfolding insert_sorted
contains-insert_sorted le k x [] = refl
contains-insert_sorted le k x (y ∷ ys) = ground (arith, contains-insert_sorted le k x ys)

pub contains-sort :
    (le : String → String → Bool) (k : String) (xs : List String)
    → contains k (sort le xs) ≡ contains k xs
unfolding sort
contains-sort le k [] = refl
contains-sort le k (x ∷ xs) =
    ground (arith, contains-sort le k xs, contains-insert_sorted le k x (sort le xs))

pub contains-filter :
    (p : String → Bool) (k : String) (xs : List String)
    → contains k (filter p xs) ≡ (contains k xs && p k)
unfolding filter
contains-filter p k [] = refl
contains-filter p k (x ∷ xs) = elim (Bool-cases (x == k)) [
  | inl same ↦ let e : x ≡ k = (eq_iff x k).0 same in ground (arith, contains-filter p k xs, ap p e)
  | inr other ↦ ground (arith, contains-filter p k xs)
]

pub contains-sorted_set :
    (k : String) (xs : List String) → contains k (sorted_set xs) ≡ contains k xs
unfolding sorted_set
contains-sorted_set k xs = contains-sort text_leb k (dedupe xs) ∙ contains-dedupe k xs

pub contains-append :
    (k : String) (xs ys : List String) → contains k (xs ++ ys) ≡ (contains k xs || contains k ys)
contains-append k [] ys = refl
contains-append k (x ∷ xs) ys = ground (arith, contains-append k xs ys)

pub filter_congr :
    (p q : String → Bool)
    → ((k : String) → p k ≡ q k)
    → (xs : List String) → filter p xs ≡ filter q xs
unfolding filter
filter_congr p q same [] = refl
filter_congr p q same (x ∷ xs) = ground (arith, same x, filter_congr p q same xs)

IsSorted-tail : (x : String) (xs : List String) → IsSorted text_leb (x ∷ xs) → IsSorted text_leb xs
IsSorted-tail x [] h = tt
IsSorted-tail x (y ∷ ys) h = h.1

IsSorted-least :
    (a x : String) (xs : List String)
    → IsSorted text_leb (a ∷ xs)
    → contains x xs ≡ true
    → text_leb a x ≡ true
IsSorted-least a x [] h c = absurd (ground arith)
IsSorted-least a x (y ∷ ys) h c = elim (Bool-cases (y == x)) [
  | inl same ↦ subst (λ z. text_leb a z ≡ true) ((eq_iff y x).0 same) h.0
  | inr other ↦ text_leb_trans a y x h.0 (IsSorted-least y x ys h.1 (ground arith))
]

text_leb_refl : (a : String) → text_leb a a ≡ true
text_leb_refl a = elim (Bool-cases (text_leb a a)) [
  | inl holds ↦ holds
  | inr fails ↦ text_leb-total a a fails
]

sorted_set-IsSorted : (xs : List String) → IsSorted text_leb (sorted_set xs)
unfolding sorted_set
sorted_set-IsSorted xs = sort-IsSorted text_leb text_leb-total (dedupe xs)

from_head :
    (y : String) (ys : List String)
    → IsSorted text_leb (y ∷ ys)
    → (x : String) → contains x (y ∷ ys) ≡ true
    → text_leb y x ≡ true
from_head y ys s x c = elim (Bool-cases (y == x)) [
  | inl same ↦ subst (λ z. text_leb y z ≡ true) ((eq_iff y x).0 same) (text_leb_refl y)
  | inr other ↦ IsSorted-least y x ys s (ground arith)
]

-- The least text of a list, if it has one, is the head of its sorted set.
pub head?-sorted_set :
    (xs : List String) (a : String)
    → head? (sorted_set xs) ≡ some a
    → (contains a xs ≡ true) × IsLeast a xs
head?-sorted_set xs a e = (
  sym (contains-sorted_set a xs) ∙ first (sorted_set xs) e,
  λ x c. least (sorted_set xs) (sorted_set-IsSorted xs) e x (contains-sorted_set x xs ∙ c),
)
  where
    first : (ys : List String) → head? ys ≡ some a → contains a ys ≡ true
    first [] h = absurd (ground arith)
    first (y ∷ ys) h = ground (arith, eq_iff y a)

    least : (ys : List String) → IsSorted text_leb ys → head? ys ≡ some a → IsLeast a ys
    least [] s h x c = absurd (ground arith)
    least (y ∷ ys) s h x c =
        let named : y ≡ a = ap (λ o. elim o [ none ↦ y | some z ↦ z ]) h in
        subst (λ z. text_leb z x ≡ true) named (from_head y ys s x c)

-- The head of the sorted set depends only on which texts the list holds.
pub head?-sorted_set_congr :
    (xs ys : List String)
    → ((k : String) → contains k xs ≡ contains k ys)
    → head? (sorted_set xs) ≡ head? (sorted_set ys)
head?-sorted_set_congr xs ys same = elim (Option-cases (head? (sorted_set xs))) [
  | inl empty ↦ elim (Option-cases (head? (sorted_set ys))) [
    | inl empty' ↦ empty ∙ sym empty'
    | inr (b, first) ↦ absurd (not_empty ys xs b (λ k. sym (same k)) first empty)
  ]
  | inr (a, first) ↦ elim (Option-cases (head? (sorted_set ys))) [
    | inl empty ↦ absurd (not_empty xs ys a same first empty)
    | inr (b, other) ↦
        let (a_in, a_least) = head?-sorted_set xs a first in
        let (b_in, b_least) = head?-sorted_set ys b other in
        first
        ∙ ap some
            (text_leb_antisymm a b (a_least b (same b ∙ b_in)) (b_least a (sym (same a) ∙ a_in)))
        ∙ sym other
  ]
]
  where
    none_holds : (k : String) (zs : List String) → head? zs ≡ none → contains k zs ≡ false
    none_holds k [] h = refl
    none_holds k (z ∷ zs) h = absurd (ground arith)

    not_empty :
        (us vs : List String) (a : String)
        → ((k : String) → contains k us ≡ contains k vs)
        → head? (sorted_set us) ≡ some a
        → head? (sorted_set vs) ≡ none
        → ⊥
    not_empty us vs a eq first empty =
        let (held, _) = head?-sorted_set us a first in
        let gone = none_holds a (sorted_set vs) empty in
        true-false (sym held ∙ eq a ∙ sym (contains-sorted_set a vs) ∙ gone)
