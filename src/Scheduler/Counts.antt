-- ===== src/Scheduler/Counts.antt =====
-- The counters of running jobs, and the lists of names.
use softos_sdd_orchestrator.Prelude.{
  ℕ, ◌+◌, ◌-◌, ◌<◌, String, false, ◌≡◌, none, List, [], ◌∷◌, ◌++◌, arith, ◌==◌, eq_iff,
  if◌then◌else◌,
}
use softos_sdd_orchestrator.Prelude.Lists.{contains}
use softos_sdd_orchestrator.Scheduler.State.{
  increase, decrease, increase_all, decrease_all, discard,
}
use softos_sdd_orchestrator.Scheduler.Loop.{full_area}

-- How often a name stands in a list.
unfoldable pub occurrences : String → List String → ℕ
occurrences k [] = 0
occurrences k (x ∷ xs) = (if x == k then 1 else 0) + occurrences k xs

pub increase_all_lem :
    (keys : List String) (counts : String → ℕ) (k : String)
    → increase_all keys counts k ≡ counts k + occurrences k keys
unfolding increase_all occurrences
increase_all_lem [] counts k = omega arith
increase_all_lem (key ∷ keys) counts k =
    ground (arith, increase_all_lem keys (increase key counts) k)

pub decrease_all_lem :
    (keys : List String) (counts : String → ℕ) (k : String)
    → decrease_all keys counts k ≡ counts k - occurrences k keys
unfolding decrease_all occurrences
decrease_all_lem [] counts k = omega arith
decrease_all_lem (key ∷ keys) counts k =
    ground (arith, decrease_all_lem keys (decrease key counts) k)

pub contains-discard :
    (name k : String) (names : List String)
    → contains k (discard name names) ≡ (if name == k then false else contains k names)
unfolding discard
contains-discard name k [] = ground arith
contains-discard name k (x ∷ xs) =
    ground (arith, contains-discard name k xs, eq_iff x name, eq_iff x k, eq_iff name k)

-- If no area is full, each area of the list has room.
pub full_area-none :
    (capacity : ℕ) (counts : String → ℕ) (areas : List String) (k : String)
    → full_area capacity counts areas ≡ none
    → 0 < occurrences k areas
    → counts k < capacity
unfolding full_area occurrences
full_area-none capacity counts [] k h p = absurd (omega arith)
full_area-none capacity counts (area ∷ areas) k h p =
    ground (arith, eq_iff area k, full_area-none capacity counts areas k)

pub occurrences-append :
    (k : String) (xs ys : List String)
    → occurrences k (xs ++ ys) ≡ occurrences k xs + occurrences k ys
unfolding occurrences
occurrences-append k [] ys = omega arith
occurrences-append k (x ∷ xs) ys = omega (arith, occurrences-append k xs ys)
