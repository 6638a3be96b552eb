-- ===== src/Prelude/Upper.antt =====
-- Python's `str.upper`, as far as the result can be an ASCII text.
use Prim.Native.Char.{Char, code}
use Prim.Native.String.{String, ◌++◌}
use mathlib.Core.Path.{◌≡◌, refl}
use softos_sdd_orchestrator.Prelude.Tests.{if◌then◌else◌, nat_eq}
use softos_sdd_orchestrator.Prelude.Strip.{match_char}

-- The letters with more than one capital: the sharp s and the ligatures of f and s.
unfoldable pub upper_char : Char → String
unfolding match_char
upper_char c =
    if nat_eq (code c) 0xDF
    then "SS"
    else if nat_eq (code c) 0xFB00
    then "FF"
    else if nat_eq (code c) 0xFB01
    then "FI"
    else if nat_eq (code c) 0xFB02
    then "FL"
    else if nat_eq (code c) 0xFB03
    then "FFI"
    else if nat_eq (code c) 0xFB04
    then "FFL"
    else if nat_eq (code c) 0xFB05
    then "ST"
    else if nat_eq (code c) 0xFB06
    then "ST"
    else String.◌∷◌ (match_char "abcdefghijklmnopqrstuvwxyzıſ" "ABCDEFGHIJKLMNOPQRSTUVWXYZIS" c) ""

-- Every other letter stays as it is here, so an upper text equals an ASCII word exactly when
-- Python's does.
unfoldable pub upper : String → String
unfolding upper_char
upper String.[] = ""
upper (String.◌∷◌ c s) = upper_char c ++ upper s

raised : upper "busy ﬁx" ≡ "BUSY FIX"
unfolding upper
raised = refl
