-- ===== src/TaskQueue/Calls.antt =====
-- Sequences of calls on the queue.
use softos_sdd_orchestrator.Prelude.{
  ℕ, String, Bool, true, false, not, ◌≡◌, refl, sym, ap, ◌∙◌, subst, Option, none, some, List, [],
  ◌∷◌, arith, ◌==◌, eq_iff, Bool-cases, Option-cases, inl, inr,
}
use softos_sdd_orchestrator.Prelude.Int.{ℤ}
use softos_sdd_orchestrator.Prelude.Lists.{All}
use softos_sdd_orchestrator.Table.{select}
use softos_sdd_orchestrator.Table.Laws.{
  IsUnique, select-update, update-IsUnique, insert-IsUnique, select-insert,
}
use softos_sdd_orchestrator.TaskQueue.Data.{Task, Comment, Queue, TaskView, id_of}
use softos_sdd_orchestrator.TaskQueue.Methods
use softos_sdd_orchestrator.TaskQueue.Methods.{
  earliest, add_event, update_where, get, is_queued, claimed, finished, duplicates, put_task,
  new_task, window_start, Outcome,
}
use softos_sdd_orchestrator.TaskQueue.Claim.{ClaimOutcome, claim_next_outcome, true-false, some-inj}

-- A call that changes the queue, with what it gets from its caller and from the environment.
pub data Call : Type 0 where
  reset_running_tasks : (now : ℕ) → Call
  enqueue :
      (task_id : String) (now later : ℕ) (window_seconds : ℤ)
      (source intent payload_json command_json : String) (response_target_json : Option String)
      → Call
  append_comment : (comment : Comment) (payload_json : String) → Call
  claim_next : (now : ℕ) → Call
  finish : (task_id : String) (outcome : Outcome) (now : ℕ) → Call

unfoldable pub handle : Call → Queue → Queue
handle (Call.reset_running_tasks now) queue = Methods.reset_running_tasks now queue
handle (Call.enqueue task_id now later window source intent payload command target) queue =
    (Methods.enqueue task_id now later window source intent payload command target queue).1
handle (Call.append_comment comment payload) queue =
    (Methods.append_comment comment payload queue).1
handle (Call.claim_next now) queue = (Methods.claim_next now queue).1
handle (Call.finish task_id outcome now) queue = (Methods.finish task_id outcome now queue).1

unfoldable pub handle_all : List Call → Queue → Queue
unfolding handle
handle_all [] queue = queue
handle_all (call ∷ calls) queue = handle_all calls (handle call queue)

-- A call that puts no task back into the queue: no reset, and no outcome that says so.
abbrev pub IsQuiet : Call → Type 0
IsQuiet (Call.reset_running_tasks now) = ⊥
IsQuiet (Call.finish task_id outcome now) = (outcome.status == "queued") ≡ false
IsQuiet call = Unit

-- The task is in the table and does not wait.
abbrev pub is_taken : String → Queue → Bool
is_taken id queue = elim (select id_of id queue.tasks) [
  | none ↦ false
  | some task ↦ not (is_queued task)
]

-- What the calls keep: the ids are unique, and a task that is taken stays so.
abbrev Keeps : Queue → Queue → Type 0
Keeps before after =
    IsUnique id_of after.tasks
    × ((id : String) → is_taken id before ≡ true → is_taken id after ≡ true)

nothing-some : {A : Type 0} {x : A} → none ≡ some x → ⊥
nothing-some e = ground arith

claim_next-Keeps :
    (now : ℕ) (queue : Queue)
    → IsUnique id_of queue.tasks
    → Keeps queue ((Methods.claim_next now queue).1)
unfolding Methods.claim_next
claim_next-Keeps now queue u = elim (Option-cases (earliest is_queued queue.tasks)) [
  | inl empty ↦ rw (empty, Methods.claim_next) (u, λ id t. t)
  | inr (row, first) ↦
      rw (first, Methods.claim_next)
        (
          update-IsUnique id_of row.task_id (claimed now) queue.tasks (λ task. refl) u,
          λ id t.
              ground (
                arith,
                select-update id_of row.task_id id (claimed now) queue.tasks (λ task. refl),
              ),
        )
]

finish-Keeps :
    (task_id : String) (outcome : Outcome) (now : ℕ) (queue : Queue)
    → (outcome.status == "queued") ≡ false
    → IsUnique id_of queue.tasks
    → Keeps queue ((Methods.finish task_id outcome now queue).1)
unfolding Methods.finish add_event
finish-Keeps task_id outcome now queue quiet u = (
  update-IsUnique id_of task_id (finished now outcome) queue.tasks (λ task. refl) u,
  λ id t.
      ground
        (arith, select-update id_of task_id id (finished now outcome) queue.tasks (λ task. refl)),
)

append_comment-Keeps :
    (comment : Comment) (payload : String) (queue : Queue)
    → IsUnique id_of queue.tasks
    → Keeps queue ((Methods.append_comment comment payload queue).1)
unfolding Methods.append_comment add_event
append_comment-Keeps comment payload queue u =
    elim (Option-cases (select id_of comment.task_id queue.tasks)) [
      | inl absent ↦ rw (absent, Methods.append_comment) (u, λ id t. t)
      | inr (task, found) ↦ rw (found, Methods.append_comment) (u, λ id t. t)
    ]

put_task-Keeps :
    (task : Task) (start : ℕ) (queue : Queue)
    → IsUnique id_of queue.tasks
    → Keeps queue ((put_task task start queue).1)
unfolding put_task add_event
put_task-Keeps task start queue u =
    elim (Option-cases
      (earliest (duplicates task.source task.intent task.payload_json start) queue.tasks)) [
        | inr (twin, found) ↦ rw (found, put_task) (u, λ id t. t)
        | inl new ↦ elim (Option-cases (select id_of task.task_id queue.tasks)) [
          | inr (other, clash) ↦ rw (new, put_task) (rw clash (u, λ id t. t))
          | inl absent ↦
              rw (new, put_task)
                (rw absent (
                  insert-IsUnique id_of task queue.tasks absent u,
                  λ id t. ground (
                    arith,
                    select-insert id_of task id queue.tasks absent,
                    eq_iff task.task_id id,
                  ),
                ))
        ]
      ]

handle-Keeps :
    (call : Call) (queue : Queue)
    → IsQuiet call
    → IsUnique id_of queue.tasks
    → Keeps queue (handle call queue)
unfolding handle Methods.enqueue
handle-Keeps (Call.reset_running_tasks now) queue quiet u = absurd quiet
handle-Keeps (Call.enqueue task_id now later window source intent payload command target) queue
      quiet u =
    put_task-Keeps (new_task task_id source intent payload command target now)
      (window_start later window) queue u
handle-Keeps (Call.append_comment comment payload) queue quiet u =
    append_comment-Keeps comment payload queue u
handle-Keeps (Call.claim_next now) queue quiet u = claim_next-Keeps now queue u
handle-Keeps (Call.finish task_id outcome now) queue quiet u =
    finish-Keeps task_id outcome now queue quiet u

handle_all-Keeps :
    (calls : List Call) (queue : Queue)
    → All IsQuiet calls
    → IsUnique id_of queue.tasks
    → Keeps queue (handle_all calls queue)
unfolding handle_all
handle_all-Keeps [] queue quiet u = (u, λ id t. t)
handle_all-Keeps (call ∷ calls) queue quiet u =
    let one = handle-Keeps call queue quiet.0 u in
    let rest = handle_all-Keeps calls (handle call queue) quiet.1 one.0 in
    (rest.0, λ id t. rest.1 id (one.1 id t))

-- A claimed task is taken, and was not before.
taken_by :
    (now : ℕ) (queue : Queue) (view : TaskView) (result : Option TaskView × Queue)
    → ClaimOutcome now queue result
    → result.0 ≡ some view
    → is_taken view.task.task_id result.1 ≡ true
taken_by now queue view (none, queue') (ClaimOutcome.nothing h) e = absurd (nothing-some e)
taken_by now queue view (some other, queue') (ClaimOutcome.oldest row found q least same stored) e =
    let chosen : view.task ≡ claimed now row = ap (λ v. v.task) (sym (some-inj e)) ∙ same in
    let busy : is_queued other.task ≡ false = ap is_queued same in
    subst (λ task. is_taken task.task_id queue' ≡ true) (sym chosen)
      (ground (arith, stored row.task_id, eq_iff row.task_id row.task_id, busy))

free_before :
    (now : ℕ) (queue : Queue) (view : TaskView) (result : Option TaskView × Queue)
    → ClaimOutcome now queue result
    → result.0 ≡ some view
    → is_taken view.task.task_id queue ≡ false
free_before now queue view (none, queue') (ClaimOutcome.nothing h) e = absurd (nothing-some e)
free_before now queue view (some other, queue') (ClaimOutcome.oldest row found q least same stored)
      e =
    let chosen : view.task ≡ claimed now row = ap (λ v. v.task) (sym (some-inj e)) ∙ same in
    subst (λ task. is_taken task.task_id queue ≡ false) (sym chosen) (ground (arith, found, q))

-- A task that `claim_next` has answered is not answered by a later `claim_next`, whatever calls
-- come between, unless the running tasks are reset or a worker reports the status `queued`.
pub claimed_once :
    (queue : Queue) (now later : ℕ) (calls : List Call) (first second : TaskView)
    → IsUnique id_of queue.tasks
    → All IsQuiet calls
    → (Methods.claim_next now queue).0 ≡ some first
    → (Methods.claim_next later (handle_all calls ((Methods.claim_next now queue).1))).0
      ≡ some second
    → (first.task.task_id == second.task.task_id) ≡ false
claimed_once queue now later calls first second unique quiet one two =
    let next = (Methods.claim_next now queue).1 in
    let kept = handle_all-Keeps calls next quiet (claim_next-Keeps now queue unique).0 in
    let taken =
      taken_by now queue first (Methods.claim_next now queue) (claim_next_outcome now queue unique)
        one in
    let queue' = handle_all calls next in
    let free =
      free_before later queue' second (Methods.claim_next later queue')
        (claim_next_outcome later queue' kept.0) two in
    elim (Bool-cases (first.task.task_id == second.task.task_id)) [
      | inr other ↦ other
      | inl same ↦
          let still = kept.1 first.task.task_id taken in
          absurd (
            true-false (
              sym still
              ∙ subst (λ k. is_taken k queue' ≡ false)
                  (sym ((eq_iff first.task.task_id second.task.task_id).0 same)) free))
    ]
