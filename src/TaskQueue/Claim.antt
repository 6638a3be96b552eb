-- ===== src/TaskQueue/Claim.antt =====
-- `claim_next` and its query.
use softos_sdd_orchestrator.Prelude.{
  ℕ, ◌≤◌, String, Bool, true, false, ◌≡◌, refl, sym, ap, ◌∙◌, subst, Option, none, some, List, [],
  ◌∷◌, arith, ◌==◌, eq_iff, leb, if◌then◌else◌, Bool-cases, Option-cases, inl, inr, ◌⊎◌,
}
use softos_sdd_orchestrator.Table.{select, update}
use softos_sdd_orchestrator.Table.Laws.{IsUnique, select-update}
use softos_sdd_orchestrator.TaskQueue.Data.{Task, Queue, TaskView, id_of}
use softos_sdd_orchestrator.TaskQueue.Methods.{older, earliest, get, is_queued, claimed, claim_next}

pub some-inj : {A : Type 0} {x y : A} → some x ≡ some y → x ≡ y
some-inj {x = x} e = ap (λ o. elim o [ none ↦ x | some z ↦ z ]) e

pub true-false : true ≡ false → ⊥
true-false e = ground arith

select-behind :
    (task : Task) (tasks : List Task) (row : Task)
    → select id_of task.task_id tasks ≡ none
    → select id_of row.task_id tasks ≡ some row
    → select id_of row.task_id (task ∷ tasks) ≡ some row
unfolding select
select-behind task tasks row absent found = elim (Bool-cases (task.task_id == row.task_id)) [
  | inr other ↦ rw (other, select) found
  | inl same ↦
      let clash : select id_of row.task_id tasks ≡ none =
        subst (λ k. select id_of k tasks ≡ none) ((eq_iff task.task_id row.task_id).0 same)
          absent in
      absurd (ground arith)
]

older-cases :
    (task : Task) (rest : Option Task) → (older task rest ≡ task) ⊎ (rest ≡ some (older task rest))
older-cases task none = inl refl
older-cases task (some other) = elim (Bool-cases (leb task.created_at other.created_at)) [
  | inl first ↦ rw first (inl refl)
  | inr second ↦ rw second (inr refl)
]

older-least :
    (task : Task) (rest : Option Task)
    → ((older task rest).created_at ≤ task.created_at)
      × ((other : Task) → rest ≡ some other → (older task rest).created_at ≤ other.created_at)
older-least task none = (omega arith, λ other e. absurd (ground arith))
older-least task (some row) = elim (Bool-cases (leb task.created_at row.created_at)) [
  | inl first ↦ rw first (omega arith, λ other e. ground (arith, e))
  | inr second ↦ rw second (ground arith, λ other e. ground (arith, e))
]

-- The row is the first one that passes, the older one, or that of the rest.
earliest-cons :
    (p : Task → Bool) (task : Task) (tasks : List Task) (row : Task)
    → earliest p (task ∷ tasks) ≡ some row
    → ((p task ≡ true) × (row ≡ older task (earliest p tasks)))
      ⊎ ((p task ≡ false) × (earliest p tasks ≡ some row))
unfolding earliest
earliest-cons p task tasks row e = elim (Bool-cases (p task)) [
  | inl passes ↦ inl (passes, sym (some-inj (rw (passes, earliest) at e)))
  | inr fails ↦ inr (fails, rw (fails, earliest) at e)
]

pub earliest-passes :
    (p : Task → Bool) (tasks : List Task) (row : Task) → earliest p tasks ≡ some row → p row ≡ true
unfolding earliest
earliest-passes p [] row e = absurd (ground arith)
earliest-passes p (task ∷ tasks) row e = elim (earliest-cons p task tasks row e) [
  | inr (fails, rest) ↦ earliest-passes p tasks row rest
  | inl (passes, chosen) ↦ elim (older-cases task (earliest p tasks)) [
    | inl same ↦ subst (λ t. p t ≡ true) (sym (chosen ∙ same)) passes
    | inr rest ↦ earliest-passes p tasks row (rest ∙ ap some (sym chosen))
  ]
]

pub earliest-none :
    (p : Task → Bool) (tasks : List Task) (id : String) (task : Task)
    → earliest p tasks ≡ none
    → select id_of id tasks ≡ some task
    → p task ≡ false
unfolding earliest select
earliest-none p [] id task e f = absurd (ground arith)
earliest-none p (first ∷ tasks) id task e f = elim (Bool-cases (p first)) [
  | inl passes ↦ absurd (ground arith)
  | inr fails ↦ elim (Bool-cases (first.task_id == id)) [
    | inl here ↦ subst (λ t. p t ≡ false) (some-inj (rw (here, select) at f)) fails
    | inr there ↦
        earliest-none p tasks id task (rw (fails, earliest) at e) (rw (there, select) at f)
  ]
]

pub earliest-first :
    (p : Task → Bool) (tasks : List Task) (row : Task) (id : String) (task : Task)
    → earliest p tasks ≡ some row
    → select id_of id tasks ≡ some task
    → p task ≡ true
    → row.created_at ≤ task.created_at
unfolding earliest select
earliest-first p [] row id task e f q = absurd (ground arith)
earliest-first p (first ∷ tasks) row id task e f q =
    let least = older-least first (earliest p tasks) in
    elim (Bool-cases (first.task_id == id)) [
      | inl here ↦
          let same : first ≡ task = some-inj (rw (here, select) at f) in
          elim (earliest-cons p first tasks row e) [
            | inl (passes, chosen) ↦
                subst (λ r. r.created_at ≤ task.created_at) (sym chosen)
                  (subst (λ t. (older first (earliest p tasks)).created_at ≤ t.created_at) same
                    least.0)
            | inr (fails, rest) ↦ absurd (true-false (sym q ∙ ap p (sym same) ∙ fails))
          ]
      | inr there ↦
          let behind = rw (there, select) at f in
          elim (earliest-cons p first tasks row e) [
            | inr (fails, rest) ↦ earliest-first p tasks row id task rest behind q
            | inl (passes, chosen) ↦ elim (Option-cases (earliest p tasks)) [
              | inl empty ↦ absurd (true-false (sym q ∙ earliest-none p tasks id task empty behind))
              | inr (other, rest) ↦
                  let older_yet = earliest-first p tasks other id task rest behind q in
                  let front = least.1 other rest in
                  subst (λ r. r.created_at ≤ task.created_at) (sym chosen)
                    (omega (arith, older_yet, front))
            ]
          ]
    ]

pub earliest-select :
    (p : Task → Bool) (tasks : List Task) (row : Task)
    → IsUnique id_of tasks
    → earliest p tasks ≡ some row
    → select id_of row.task_id tasks ≡ some row
unfolding earliest select
earliest-select p [] row u e = absurd (ground arith)
earliest-select p (task ∷ tasks) row u e =
    let behind = λ (rest : earliest p tasks ≡ some row).
      select-behind task tasks row u.0 (earliest-select p tasks row u.1 rest) in
    elim (earliest-cons p task tasks row e) [
      | inr (fails, rest) ↦ behind rest
      | inl (passes, chosen) ↦ elim (older-cases task (earliest p tasks)) [
        | inr rest ↦ behind (rest ∙ ap some (sym chosen))
        | inl same ↦
            subst (λ t. select id_of t.task_id (task ∷ tasks) ≡ some t) (sym (chosen ∙ same))
              (ground (arith, eq_iff task.task_id task.task_id))
      ]
    ]

-- What `claim_next` may answer, with the queue that it leaves.
pub data ClaimOutcome (now : ℕ) (queue : Queue) : Option TaskView × Queue → Type 0 where
  nothing :
      ((id : String) (task : Task)
        → select id_of id queue.tasks ≡ some task
        → is_queued task ≡ false)
      → ClaimOutcome now queue (none, queue)
  oldest :
      {view : TaskView} {queue' : Queue} (row : Task)
      → select id_of row.task_id queue.tasks ≡ some row
      → is_queued row ≡ true
      → ((id : String) (task : Task)
          → select id_of id queue.tasks ≡ some task
          → is_queued task ≡ true
          → row.created_at ≤ task.created_at)
      → view.task ≡ claimed now row
      → ((id : String)
          → select id_of id queue'.tasks
            ≡ (if row.task_id == id then some view.task else select id_of id queue.tasks))
      → ClaimOutcome now queue (some view, queue')

-- `claim_next` answers nothing only if no task is queued. Otherwise it answers a queued task than
-- which no queued task was created earlier, as running since now, stores it so, and leaves every
-- other task as it was.
pub claim_next_outcome :
    (now : ℕ) (queue : Queue)
    → IsUnique id_of queue.tasks
    → ClaimOutcome now queue (claim_next now queue)
unfolding claim_next get
claim_next_outcome now queue unique = elim (Option-cases (earliest is_queued queue.tasks)) [
  | inl empty ↦
      rw (empty, claim_next)
        (nothing (λ id task found. earliest-none is_queued queue.tasks id task empty found))
  | inr (row, first) ↦
      let found = earliest-select is_queued queue.tasks row unique first in
      let stored = λ (id : String).
        select-update id_of row.task_id id (claimed now) queue.tasks (λ task. refl) in
      let own : select id_of row.task_id (update id_of row.task_id (claimed now) queue.tasks)
          ≡ some (claimed now row) =
        ground (arith, stored row.task_id, eq_iff row.task_id row.task_id) in
      rw (first, claim_next)
        (rw (own, get)
          (oldest row found (earliest-passes is_queued queue.tasks row first)
            (λ id task e q. earliest-first is_queued queue.tasks row id task first e q) refl
            (λ id. ground (arith, stored id, eq_iff row.task_id id, found))))
]
