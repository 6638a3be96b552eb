-- ===== src/Prelude/Strip.antt =====
-- Python's `str.strip` and `str.lower`.
use Prim.Native.Nat.{ℕ}
use Prim.Native.Char.{Char, code}
use Prim.Native.String.{String}
use mathlib.Core.Path.{◌≡◌, refl}
use mathlib.Core.Bool.{Bool, ◌&&◌, ◌||◌}
use text.Mathlib.Text.{◌==◌}
use softos_sdd_orchestrator.Prelude.Tests.{if◌then◌else◌, nat_eq, leb}

-- str.isspace, by code point
unfoldable pub is_space : ℕ → Bool
is_space c =
    leb 9 c && leb c 13
    || (leb 28 c && leb c 32
        || (nat_eq c 133
            || (nat_eq c 160
                || (nat_eq c 5760
                    || (leb 8192 c && leb c 8202
                        || (leb 8232 c && leb c 8233
                            || (nat_eq c 8239 || (nat_eq c 8287 || nat_eq c 12288))))))))

unfoldable pub lstrip : String → String
lstrip String.[] = ""
lstrip (String.◌∷◌ c s) = let rest = lstrip s in if is_space (code c) then rest else String.◌∷◌ c s

unfoldable pub rstrip : String → String
rstrip String.[] = ""
rstrip (String.◌∷◌ c s) =
    let rest = rstrip s in if is_space (code c) && rest == "" then "" else String.◌∷◌ c rest

unfoldable pub strip : String → String
unfolding is_space lstrip rstrip
strip s = rstrip (lstrip s)

padded : strip " in_edit \n" ≡ "in_edit"
unfolding strip
padded = refl

unfoldable pub match_char : String → String → Char → Char
match_char (String.◌∷◌ u us) (String.◌∷◌ l ls) c =
    let rest = match_char us ls c in if nat_eq (code u) (code c) then l else rest
match_char _ _ c = c

-- The letters whose lower case is an ASCII letter, the Kelvin sign last; others stay as they are here, so a lowered text
-- equals an ASCII word exactly when Python's does.
unfoldable pub lower_char : Char → Char
unfolding match_char
lower_char c = match_char "ABCDEFGHIJKLMNOPQRSTUVWXYZK" "abcdefghijklmnopqrstuvwxyzk" c

unfoldable pub lower : String → String
unfolding lower_char
lower String.[] = ""
lower (String.◌∷◌ c s) = String.◌∷◌ (lower_char c) (lower s)

shouted : lower "Admin" ≡ "admin"
unfolding match_char lower_char lower
shouted = refl
