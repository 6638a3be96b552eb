-- ===== src/TaskQueue/Recent.antt =====
-- What `recent_tasks` shows.
use mathlib.Core.List.{Perm}
use mathlib.Core.List.Perm
use softos_sdd_orchestrator.Prelude.{
  ℕ, zero, suc, true, false, ◌≡◌, refl, sym, ap, subst, ◌≤◌, ◌<◌, List, [], ◌∷◌, ◌++◌, arith,
}
use softos_sdd_orchestrator.Prelude.Int.{ℤ, pos, negsuc}
use softos_sdd_orchestrator.Prelude.Lists.{length, All}
use softos_sdd_orchestrator.Prelude.Sort.{sort, sort-IsSorted, sort-perm}
use softos_sdd_orchestrator.Table.Partition.{IsOrdered, IsSorted-IsOrdered}
use softos_sdd_orchestrator.TaskQueue.Data.{Task, Queue}
use softos_sdd_orchestrator.TaskQueue.Journal.{take, later_first, recent_tasks}

-- The first task was not created before the second.
abbrev pub Follows : Task → Task → Type 0
Follows a b = b.created_at ≤ a.created_at

-- How many tasks a limit admits: all of them if it is negative, else at most so many, and fewer only if
-- none is left out.
abbrev pub IsLimited : ℤ → (shown others : List Task) → Type 0
IsLimited (pos limit) shown others = (length shown ≤ limit) × (length shown < limit → others ≡ [])
IsLimited (negsuc n) shown others = others ≡ []

-- A listing of the tasks: what it shows and what it leaves out are the tasks.
pub record IsRecent (limit : ℤ) (tasks shown : List Task) : Type 0 where
  pub others : List Task
  pub all_tasks : Perm (shown ++ others) tasks
  pub limited : IsLimited limit shown others
  pub ordered : IsOrdered Follows shown
  pub newest : All (λ task. All (Follows task) others) shown

drop : ℕ → List Task → List Task
drop n [] = []
drop zero (x ∷ xs) = x ∷ xs
drop (suc n) (x ∷ xs) = drop n xs

take-drop : (n : ℕ) (xs : List Task) → take n xs ++ drop n xs ≡ xs
unfolding take drop
take-drop n [] = refl
take-drop zero (x ∷ xs) = refl
take-drop (suc n) (x ∷ xs) = ap (λ l. x ∷ l) (take-drop n xs)

length-take : (n : ℕ) (xs : List Task) → length (take n xs) ≤ n
unfolding take
length-take n [] = omega arith
length-take zero (x ∷ xs) = omega arith
length-take (suc n) (x ∷ xs) = omega (arith, length-take n xs)

drop_none : (n : ℕ) (xs : List Task) → length (take n xs) < n → drop n xs ≡ []
unfolding take drop
drop_none n [] h = refl
drop_none zero (x ∷ xs) h = absurd (omega (arith, h))
drop_none (suc n) (x ∷ xs) h = drop_none n xs (omega (arith, h))

drop-All : (P : Task → Type 0) (n : ℕ) (xs : List Task) → All P xs → All P (drop n xs)
unfolding drop
drop-All P n [] h = tt
drop-All P zero (x ∷ xs) h = h
drop-All P (suc n) (x ∷ xs) (h, hs) = drop-All P n xs hs

-- The head of an ordered list was not created before any other.
head-All : (x : Task) (xs : List Task) → IsOrdered Follows (x ∷ xs) → All (Follows x) xs
head-All x [] h = tt
head-All x (y ∷ ys) (h, hs) = (h, below y ys h (head-All y ys hs))
  where
    below : (z : Task) (zs : List Task) → Follows x z → All (Follows z) zs → All (Follows x) zs
    below z [] first h = tt
    below z (w ∷ ws) first (k, ks) = (omega (arith, first, k), below z ws first ks)

tail-IsOrdered : (x : Task) (xs : List Task) → IsOrdered Follows (x ∷ xs) → IsOrdered Follows xs
tail-IsOrdered x [] h = tt
tail-IsOrdered x (y ∷ ys) (h, hs) = hs

take-IsOrdered : (n : ℕ) (xs : List Task) → IsOrdered Follows xs → IsOrdered Follows (take n xs)
unfolding take
take-IsOrdered zero [] h = tt
take-IsOrdered zero (x ∷ xs) h = tt
take-IsOrdered (suc n) [] h = tt
take-IsOrdered (suc n) (x ∷ []) h = tt
take-IsOrdered (suc zero) (x ∷ y ∷ ys) h = tt
take-IsOrdered (suc (suc n)) (x ∷ y ∷ ys) (h, hs) = (h, take-IsOrdered (suc n) (y ∷ ys) hs)

take-newest :
    (n : ℕ) (xs : List Task)
    → IsOrdered Follows xs
    → All (λ task. All (Follows task) (drop n xs)) (take n xs)
unfolding take drop
take-newest n [] h = tt
take-newest zero (x ∷ xs) h = tt
take-newest (suc n) (x ∷ xs) h =
    (drop-All (Follows x) n xs (head-All x xs h), take-newest n xs (tail-IsOrdered x xs h))

later_first-total : (a b : Task) → later_first a b ≡ false → later_first b a ≡ true
later_first-total a b h = ground arith

sort-IsOrdered : (tasks : List Task) → IsOrdered Follows (sort later_first tasks)
sort-IsOrdered tasks =
    IsSorted-IsOrdered later_first Follows (λ a b h. ground (arith, h)) _
      (sort-IsSorted later_first later_first-total tasks)

none_left_out : (xs : List Task) → All (λ task. All (Follows task) []) xs
none_left_out [] = tt
none_left_out (x ∷ xs) = (tt, none_left_out xs)

nothing_dropped : (xs tasks : List Task) → Perm xs tasks → Perm (xs ++ []) tasks
nothing_dropped xs tasks h = Perm.trans (append_nil xs) h
  where
    append_nil : (ys : List Task) → Perm (ys ++ []) ys
    append_nil [] = Perm.refl []
    append_nil (y ∷ ys) = Perm.cons y (append_nil ys)

-- What the listing of recent tasks shows and what it leaves out are together the tasks of the table, and no
-- task that it shows was created before one that it shows later or leaves out. A negative limit leaves out
-- none; with any other, at most so many tasks are shown, and fewer only if none is left out.
pub recent_tasks-IsRecent :
    (limit : ℤ) (queue : Queue) → IsRecent limit queue.tasks (recent_tasks limit queue)
unfolding recent_tasks
recent_tasks-IsRecent (pos limit) queue =
    let sorted = sort later_first queue.tasks in
    record {
      others = drop limit sorted;
      all_tasks =
          subst (λ l. Perm l queue.tasks) (sym (take-drop limit sorted))
            (sort-perm later_first queue.tasks);
      limited = (length-take limit sorted, drop_none limit sorted);
      ordered = take-IsOrdered limit sorted (sort-IsOrdered queue.tasks);
      newest = take-newest limit sorted (sort-IsOrdered queue.tasks);
    }
recent_tasks-IsRecent (negsuc n) queue =
    let sorted = sort later_first queue.tasks in
    record {
      others = [];
      all_tasks = nothing_dropped sorted queue.tasks (sort-perm later_first queue.tasks);
      limited = refl;
      ordered = sort-IsOrdered queue.tasks;
      newest = none_left_out sorted;
    }
