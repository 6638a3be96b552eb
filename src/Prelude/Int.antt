-- ===== src/Prelude/Int.antt =====
-- Python's `int` where an argument may be negative.
use Prim.Native.Nat.{ℕ, ◌≤◌, max}
use mathlib.Core.Bool.{Bool, true, false, ◌&&◌}
use native.Mathlib.Omega.{arith}
use softos_sdd_orchestrator.Prelude.Tests.{leb}

-- `negsuc n` is -(n + 1).
pub data ℤ : Type 0 where
  pos : ℕ → ℤ
  negsuc : ℕ → ℤ

abbrev pub int_leb : ℤ → ℤ → Bool
int_leb (pos a) (pos b) = leb a b
int_leb (pos a) (negsuc b) = false
int_leb (negsuc a) (pos b) = true
int_leb (negsuc a) (negsuc b) = leb b a

abbrev pub int_eq : ℤ → ℤ → Bool
int_eq a b = int_leb a b && int_leb b a

-- max(1, n)
unfoldable pub at_least_one : ℤ → ℕ
at_least_one (pos n) = max 1 n
at_least_one (negsuc n) = 1

pub at_least_one-pos : (n : ℤ) → 1 ≤ at_least_one n
unfolding at_least_one
at_least_one-pos (pos n) = omega arith
at_least_one-pos (negsuc n) = omega arith
