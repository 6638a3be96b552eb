-- ===== src/Prelude/Text.antt =====
-- Texts: their order by code points, which is that of Python's `sorted` and of SQLite's `ORDER BY`,
-- f-strings, and the defaults that `or` gives for an empty text.
use Prim.Native.Nat.{ℕ, Ordering, compare as compare_ℕ}
use Prim.Native.Char.{code}
use Prim.Native.String.{String, compare, ◌++◌, then as and_then}
use Prim.Native.String.compare
use mathlib.Core.Path.{◌≡◌, refl, sym, ◌∙◌, ap}
use mathlib.Core.Bool.{Bool, true, false}
use mathlib.Core.List.{List, [], ◌∷◌}
use native.Mathlib.Omega.{arith}
use text.Mathlib.Text.{◌==◌}
use softos_sdd_orchestrator.Prelude.Tests.{if◌then◌else◌}

abbrev not_gt : Ordering → Bool
not_gt Ordering.gt = false
not_gt _ = true

-- a <= b
unfoldable pub text_leb : String → String → Bool
text_leb a b = not_gt (compare a b)

unfoldable pub swap : Ordering → Ordering
swap Ordering.lt = Ordering.gt
swap Ordering.eq = Ordering.eq
swap Ordering.gt = Ordering.lt

swap-then : (a b : Ordering) → swap (and_then a b) ≡ and_then (swap a) (swap b)
unfolding swap
swap-then Ordering.lt b = refl
swap-then Ordering.eq b = refl
swap-then Ordering.gt b = refl

compare_ℕ-swap : (m n : ℕ) → compare_ℕ m n ≡ swap (compare_ℕ n m)
unfolding swap
compare_ℕ-swap m n = ground arith

pub compare-swap : (a b : String) → compare a b ≡ swap (compare b a)
unfolding swap
compare-swap String.[] String.[] = rw compare.nil-nil
compare-swap String.[] (String.◌∷◌ d t) = rw (compare.nil-cons, compare.cons-nil)
compare-swap (String.◌∷◌ c s) String.[] = rw (compare.nil-cons, compare.cons-nil)
compare-swap (String.◌∷◌ c s) (String.◌∷◌ d t) =
    compare.cons-cons c d s t
    ∙ cc (compare_ℕ-swap (code c) (code d), compare-swap s t)
    ∙ sym (swap-then (compare_ℕ (code d) (code c)) (compare t s))
    ∙ ap swap (sym (compare.cons-cons d c t s))

not_gt-swap : (o : Ordering) → not_gt (swap o) ≡ false → not_gt o ≡ true
unfolding swap
not_gt-swap Ordering.lt h = refl
not_gt-swap Ordering.eq h = refl
not_gt-swap Ordering.gt h = cc

-- Any two texts are in order one way or the other.
pub text_leb-total : (a b : String) → text_leb a b ≡ false → text_leb b a ≡ true
unfolding text_leb
text_leb-total a b h = not_gt-swap (compare b a) (sym (ap not_gt (compare-swap a b)) ∙ h)

-- The pieces of an f-string.
unfoldable pub concat : List String → String
concat [] = ""
concat (s ∷ rest) = s ++ concat rest

-- text or default
abbrev pub or_default : String → String → String
or_default text default = if text == "" then default else text
