-- ===== src/TaskQueue/Journal.antt =====
-- The tables of the store that only grow, and the listings: `append_task_event`, `record_auth_audit`,
-- `list_auth_audit`, `record_intake_failure` and `recent_tasks`.
use softos_sdd_orchestrator.Prelude.{
  ℕ, zero, suc, String, Bool, ◌≡◌, refl, ap, ◌∙◌, ◌-◌, ◌≤◌, Option, none, List, [], ◌∷◌, ◌++◌,
  arith, leb,
}
use softos_sdd_orchestrator.Prelude.Int.{ℤ, pos, negsuc, at_least_one, at_least_one-pos}
use softos_sdd_orchestrator.Prelude.Sort.{sort}
use softos_sdd_orchestrator.Table.{insert}
use softos_sdd_orchestrator.TaskQueue.Data.{Task, TaskEvent, Queue}
use softos_sdd_orchestrator.TaskQueue.Methods.{add_event}

-- A row of `auth_audit`; its id is its place in the list.
pub record AuthEntry : Type 0 where
  pub actor : Option String
  pub source : String
  pub endpoint : String
  pub decision : String
  pub reason_code : String
  pub correlation_id : Option String
  pub created_at : ℕ

-- A row of `intake_failures`.
pub record IntakeFailure : Type 0 where
  pub source : String
  pub reason : String
  pub payload_json : String
  pub created_at : ℕ

-- LIMIT n
unfoldable pub take : {A : Type 0} → ℕ → List A → List A
take n [] = []
take zero (x ∷ xs) = []
take (suc n) (x ∷ xs) = x ∷ take n xs

-- ORDER BY id DESC
unfoldable pub newest_first : {A : Type 0} → List A → List A
newest_first [] = []
newest_first (x ∷ xs) = newest_first xs ++ x ∷ []

unfoldable pub append_task_event : TaskEvent → Queue → Queue
unfolding add_event
append_task_event event queue = add_event event queue

unfoldable pub record_auth_audit : AuthEntry → List AuthEntry → List AuthEntry
record_auth_audit entry entries = insert entry entries

unfoldable pub list_auth_audit : ℤ → List AuthEntry → List AuthEntry
unfolding take newest_first
list_auth_audit limit entries = take (at_least_one limit) (newest_first entries)

-- The failure, with the text of `{"reason": reason}`; no task belongs to its event.
unfoldable pub record_intake_failure :
    IntakeFailure → String → List IntakeFailure → Queue → List IntakeFailure × Queue
unfolding add_event
record_intake_failure failure reason_json failures queue = (
  insert failure failures,
  add_event
      (record {
        task_id = none;
        event = "failed-intake";
        source = failure.source;
        status = "failed";
        payload_json = reason_json;
        created_at = failure.created_at;
      })
      queue,
)

-- ORDER BY created_at DESC; of two of the same second, the one inserted first comes first.
abbrev pub later_first : Task → Task → Bool
later_first a b = leb b.created_at a.created_at

-- SQLite reads a negative LIMIT as none. The columns that are left out stay in the rows.
unfoldable pub recent_tasks : ℤ → Queue → List Task
unfolding take
recent_tasks (pos limit) queue = take limit (sort later_first queue.tasks)
recent_tasks (negsuc n) queue = sort later_first queue.tasks

newest_first-insert :
    {A : Type 0} (x : A) (xs : List A) → newest_first (insert x xs) ≡ x ∷ newest_first xs
unfolding newest_first insert
newest_first-insert x [] = refl
newest_first-insert x (y ∷ xs) = ap (λ l. l ++ y ∷ []) (newest_first-insert x xs)

take-cons :
    {A : Type 0} (n : ℕ) (x : A) (xs : List A) → 1 ≤ n → take n (x ∷ xs) ≡ x ∷ take (n - 1) xs
unfolding take
take-cons zero x xs h = absurd (omega arith)
take-cons (suc n) x xs h = let back : n ≡ suc n - 1 = omega arith in ap (λ m. x ∷ take m xs) back

-- Right after an entry was recorded, a listing shows it first, whatever its limit, and behind it
-- the newest of the others, as many as the limit leaves; a limit below 1 counts as 1.
pub list_auth_audit-record_auth_audit :
    (limit : ℤ) (entry : AuthEntry) (entries : List AuthEntry)
    → list_auth_audit limit (record_auth_audit entry entries)
      ≡ entry ∷ take (at_least_one limit - 1) (newest_first entries)
unfolding list_auth_audit record_auth_audit
list_auth_audit-record_auth_audit limit entry entries =
    ap (take (at_least_one limit)) (newest_first-insert entry entries)
    ∙ take-cons (at_least_one limit) entry (newest_first entries) (at_least_one-pos limit)
