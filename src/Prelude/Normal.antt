-- ===== src/Prelude/Normal.antt =====
-- `strip` and `lower` keep what they have made.
use Prim.Native.Char.{Char, code}
use Prim.Native.String.{String}
use Prim.Native.String.compare
use mathlib.Core.Path.{◌≡◌, refl, ◌∙◌, ap}
use mathlib.Core.Logic.{◌⊎◌, inl, inr}
use mathlib.Core.Bool.{Bool, true, false, not, ◌&&◌}
use native.Mathlib.Omega.{arith}
use text.Mathlib.Text.{◌==◌}
use softos_sdd_orchestrator.Prelude.Tests.{nat_eq, nat_eq→eq, Bool-cases}
use softos_sdd_orchestrator.Prelude.Strip.{
  is_space, lstrip, rstrip, strip, match_char, lower_char, lower,
}

-- No character is white space.
abbrev no_space : String → Bool
no_space String.[] = true
no_space (String.◌∷◌ c s) = not (is_space (code c)) && no_space s

match_char-is_space :
    (us ls : String) (c : Char)
    → no_space us ≡ true
    → no_space ls ≡ true
    → is_space (code (match_char us ls c)) ≡ is_space (code c)
unfolding match_char
match_char-is_space String.[] ls c h k = refl
match_char-is_space (String.◌∷◌ u us) String.[] c h k = refl
match_char-is_space (String.◌∷◌ u us) (String.◌∷◌ l ls) c h k =
    elim (Bool-cases (nat_eq (code u) (code c))) [
      | inl same ↦
          let e : is_space (code u) ≡ is_space (code c) =
            ap is_space (nat_eq→eq (code u) (code c) same) in
          ground (arith, same)
      | inr other ↦ ground (arith, other, match_char-is_space us ls c (ground arith) (ground arith))
    ]

lower_char-is_space : (c : Char) → is_space (code (lower_char c)) ≡ is_space (code c)
unfolding is_space lower_char
lower_char-is_space c =
    match_char-is_space "ABCDEFGHIJKLMNOPQRSTUVWXYZK" "abcdefghijklmnopqrstuvwxyzk" c refl refl

-- A map on characters keeps each character of the text.
abbrev Fixes : (Char → Char) → String → Type 0
Fixes f String.[] = Unit
Fixes f (String.◌∷◌ c s) = (f c ≡ c) × Fixes f s

match_char-fixed :
    (f : Char → Char) (us ls : String) (c : Char)
    → Fixes f ls
    → (f (match_char us ls c) ≡ match_char us ls c) ⊎ (match_char us ls c ≡ c)
unfolding match_char
match_char-fixed f String.[] ls c h = inr refl
match_char-fixed f (String.◌∷◌ u us) String.[] c h = inr refl
match_char-fixed f (String.◌∷◌ u us) (String.◌∷◌ l ls) c (l_fixed, h) =
    elim (Bool-cases (nat_eq (code u) (code c))) [
      | inl same ↦ rw same (inl l_fixed)
      | inr other ↦ rw other (match_char-fixed f us ls c h)
    ]

small_fixed : Fixes lower_char "abcdefghijklmnopqrstuvwxyzk"
unfolding match_char lower_char
small_fixed = (
  refl,
  (
    refl,
    (
      refl,
      (
        refl,
        (
          refl,
          (
            refl,
            (
              refl,
              (
                refl,
                (
                  refl,
                  (
                    refl,
                    (
                      refl,
                      (
                        refl,
                        (
                          refl,
                          (
                            refl,
                            (
                              refl,
                              (
                                refl,
                                (
                                  refl,
                                  (
                                    refl,
                                    (
                                      refl,
                                      (
                                        refl,
                                        (refl, (refl, (refl, (refl, (refl, (refl, (refl, tt))))))),
                                      ),
                                    ),
                                  ),
                                ),
                              ),
                            ),
                          ),
                        ),
                      ),
                    ),
                  ),
                ),
              ),
            ),
          ),
        ),
      ),
    ),
  ),
)

lower_char_again : (c : Char) → lower_char (lower_char c) ≡ lower_char c
unfolding lower_char
lower_char_again c =
    elim (match_char-fixed lower_char "ABCDEFGHIJKLMNOPQRSTUVWXYZK" "abcdefghijklmnopqrstuvwxyzk" c
      small_fixed) [ inl kept ↦ kept | inr other ↦ ap lower_char other ]

lower-lower : (s : String) → lower (lower s) ≡ lower s
unfolding lower
lower-lower String.[] = refl
lower-lower (String.◌∷◌ c s) = cc (lower_char_again c, lower-lower s)

lstrip-lower : (s : String) → lstrip (lower s) ≡ lower (lstrip s)
unfolding lower lstrip
lstrip-lower String.[] = refl
lstrip-lower (String.◌∷◌ c s) = elim (Bool-cases (is_space (code c))) [
  | inl space ↦ ground (arith, space, lower_char-is_space c, lstrip-lower s)
  | inr other ↦ ground (arith, other, lower_char-is_space c, lstrip-lower s)
]

lower_empty : (s : String) → (lower s == "") ≡ (s == "")
unfolding lower
lower_empty String.[] = refl
lower_empty (String.◌∷◌ c s) =
    rw (compare.cons-nil (lower_char c) (lower s), compare.cons-nil c s) refl

rstrip-lower : (s : String) → rstrip (lower s) ≡ lower (rstrip s)
unfolding lower rstrip
rstrip-lower String.[] = refl
rstrip-lower (String.◌∷◌ c s) =
    let ends : (is_space (code (lower_char c)) && (rstrip (lower s) == ""))
        ≡ (is_space (code c) && (rstrip s == "")) =
      rw (lower_char-is_space c, rstrip-lower s, lower_empty (rstrip s)) refl in
    elim (Bool-cases (is_space (code c) && (rstrip s == ""))) [
      | inl blank ↦ rw (ends ∙ blank, blank) refl
      | inr other ↦
          rw (ends ∙ other, other) (ap (λ rest. String.◌∷◌ (lower_char c) rest) (rstrip-lower s))
    ]

strip-lower : (s : String) → strip (lower s) ≡ lower (strip s)
unfolding strip
strip-lower s = ap rstrip (lstrip-lower s) ∙ rstrip-lower (lstrip s)

rstrip-rstrip : (s : String) → rstrip (rstrip s) ≡ rstrip s
unfolding rstrip
rstrip-rstrip String.[] = refl
rstrip-rstrip (String.◌∷◌ c s) = elim (Bool-cases (is_space (code c) && (rstrip s == ""))) [
  | inl blank ↦ rw blank refl
  | inr other ↦ ground (arith, other, rstrip-rstrip s)
]

-- The text does not start with white space.
abbrev IsFlush : String → Type 0
IsFlush String.[] = Unit
IsFlush (String.◌∷◌ c s) = is_space (code c) ≡ false

lstrip-IsFlush : (s : String) → IsFlush (lstrip s)
unfolding lstrip
lstrip-IsFlush String.[] = tt
lstrip-IsFlush (String.◌∷◌ c s) = elim (Bool-cases (is_space (code c))) [
  | inl space ↦ rw space (lstrip-IsFlush s)
  | inr other ↦ rw other other
]

lstrip-rstrip : (s : String) → IsFlush s → lstrip (rstrip s) ≡ rstrip s
unfolding rstrip lstrip
lstrip-rstrip String.[] h = refl
lstrip-rstrip (String.◌∷◌ c s) h = rw (h, h) refl

pub strip-strip : (s : String) → strip (strip s) ≡ strip s
unfolding strip
strip-strip s = ap rstrip (lstrip-rstrip (lstrip s) (lstrip-IsFlush s)) ∙ rstrip-rstrip (lstrip s)

-- A text that is stripped and lowered stays as it is when both are done again.
pub lower-strip_again : (s : String) → lower (strip (lower (strip s))) ≡ lower (strip s)
lower-strip_again s =
    ap lower (strip-lower (strip s)) ∙ lower-lower (strip (strip s)) ∙ ap lower (strip-strip s)
