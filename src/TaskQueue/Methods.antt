-- ===== src/TaskQueue/Methods.antt =====
-- The methods of `TaskStore` on the queue. Each takes the clock readings and the fresh id that the
-- code would have got. `none` is a call that raises: `KeyError(task_id)`, or the INSERT of a task whose
-- id is taken, which is rolled back.
use softos_sdd_orchestrator.Prelude.{
  ℕ, ◌-◌, String, Bool, true, false, Option, none, some, List, [], ◌∷◌, ◌==◌, ◌&&◌, leb,
  if◌then◌else◌,
}
use softos_sdd_orchestrator.Prelude.Int.{ℤ, pos, negsuc}
use softos_sdd_orchestrator.Table.{select_where, insert, select, update}
use softos_sdd_orchestrator.TaskQueue.Data.{Task, Comment, TaskEvent, Queue, TaskView, id_of}

-- The task, unless the other is strictly older.
abbrev pub older : Task → Option Task → Task
older task none = task
older task (some other) = if leb task.created_at other.created_at then task else other

-- ... WHERE p ORDER BY created_at ASC LIMIT 1; of two of the same second, the one inserted first.
unfoldable pub earliest : (Task → Bool) → List Task → Option Task
earliest p [] = none
earliest p (task ∷ tasks) =
    let rest = earliest p tasks in if p task then some (older task rest) else rest

-- UPDATE tasks SET f WHERE p
unfoldable pub update_where : (Task → Bool) → (Task → Task) → List Task → List Task
update_where p f [] = []
update_where p f (task ∷ tasks) = (if p task then f task else task) ∷ update_where p f tasks

unfoldable pub add_event : TaskEvent → Queue → Queue
add_event event queue = record queue { events = insert event queue.events }

-- status.startswith("failed")
abbrev pub starts_with : String → String → Bool
starts_with text String.[] = true
starts_with String.[] (String.◌∷◌ c prefix) = false
starts_with (String.◌∷◌ d text) (String.◌∷◌ c prefix) =
    let rest = starts_with text prefix in String.◌∷◌ d "" == String.◌∷◌ c "" && rest

abbrev pub has_task_id : String → Option String → Bool
has_task_id task_id none = false
has_task_id task_id (some other) = other == task_id

unfoldable pub get : String → Queue → Option TaskView
get task_id queue = elim (select id_of task_id queue.tasks) [
  | none ↦ none
  | some task ↦ some (record {
    task = task;
    timeline = select_where (λ comment. comment.task_id == task_id) queue.timeline;
    events = select_where (λ event. has_task_id task_id event.task_id) queue.events;
  })
]

unfoldable pub reset_running_tasks : ℕ → Queue → Queue
unfolding update_where
reset_running_tasks now queue = record queue {
  tasks =
      update_where (λ task. task.status == "running")
        (λ task. record task { status = "queued"; updated_at = now; started_at = none })
        queue.tasks;
}

abbrev pub is_queued : Task → Bool
is_queued task = task.status == "queued"

abbrev pub claimed : ℕ → Task → Task
claimed now task = record task { status = "running"; started_at = some now; updated_at = now }

unfoldable pub claim_next : ℕ → Queue → Option TaskView × Queue
unfolding earliest get
claim_next now queue = elim (earliest is_queued queue.tasks) [
  | none ↦ (none, queue)
  | some row ↦
      let queue' : Queue = record queue {
        tasks = update id_of row.task_id (claimed now) queue.tasks;
      } in
      (get row.task_id queue', queue')
]

-- A duplicate in the window: the same source, intent and payload.
abbrev pub duplicates : String → String → String → ℕ → Task → Bool
duplicates source intent payload_json window_start task =
    task.source == source
    && task.intent == intent
    && task.payload_json == payload_json
    && leb window_start task.created_at

-- The clock less `max(0, window_seconds)`.
abbrev pub window_start : ℕ → ℤ → ℕ
window_start now (pos seconds) = now - seconds
window_start now (negsuc n) = now

abbrev pub new_task : String → String → String → String → String → Option String → ℕ → Task
new_task task_id source intent payload_json command_json response_target_json now = record {
  task_id = task_id;
  source = source;
  intent = intent;
  payload_json = payload_json;
  command_json = command_json;
  response_target_json = response_target_json;
  status = "queued";
  stdout = none;
  stderr = none;
  parsed_output_json = none;
  exit_code = none;
  created_at = now;
  started_at = none;
  finished_at = none;
  updated_at = now;
}

abbrev pub created_event : Task → TaskEvent
created_event task = record {
  task_id = some task.task_id;
  event = "created";
  source = task.source;
  status = "accepted";
  payload_json = task.payload_json;
  created_at = task.created_at;
}

-- The transaction of `enqueue`, with the record to insert and the start of the window.
unfoldable pub put_task : Task → ℕ → Queue → Option TaskView × Queue
unfolding earliest get add_event
put_task task start queue =
    elim (earliest (duplicates task.source task.intent task.payload_json start) queue.tasks) [
      | some duplicate ↦ (get duplicate.task_id queue, queue)
      | none ↦ elim (select id_of task.task_id queue.tasks) [
        | some _ ↦ (none, queue)
        | none ↦
            let queue' : Queue =
              add_event (created_event task) (record queue { tasks = insert task queue.tasks }) in
            (get task.task_id queue', queue')
      ]
    ]

-- The clock is read once for `created_at` and once for the window, whose length is the value of
-- SOFTOS_GATEWAY_DEDUPE_WINDOW_SECONDS.
unfoldable pub enqueue :
    (task_id : String) (now later : ℕ) (window_seconds : ℤ)
    (source intent payload_json command_json : String) (response_target_json : Option String)
    → Queue
    → Option TaskView × Queue
unfolding put_task
enqueue task_id now later window_seconds source intent payload_json command_json target queue =
    put_task (new_task task_id source intent payload_json command_json target now)
      (window_start later window_seconds) queue

unfoldable pub append_comment : Comment → String → Queue → Option TaskView × Queue
unfolding get add_event
append_comment comment payload_json queue = elim (select id_of comment.task_id queue.tasks) [
  | none ↦ (none, queue)
  | some _ ↦
      let queue' : Queue =
        add_event
          (record {
            task_id = some comment.task_id;
            event = "comment_added";
            source = comment.source;
            status = "accepted";
            payload_json = payload_json;
            created_at = comment.created_at;
          })
          (record queue { timeline = insert comment queue.timeline }) in
      (get comment.task_id queue', queue')
]

-- What a worker reports of a task.
pub record Outcome : Type 0 where
  pub status : String
  pub exit_code : ℤ
  pub stdout : String
  pub stderr : String
  pub parsed_json : Option String
  pub event_json : String

abbrev pub finished : ℕ → Outcome → Task → Task
finished now outcome task = record task {
  status = outcome.status;
  exit_code = some outcome.exit_code;
  stdout = some outcome.stdout;
  stderr = some outcome.stderr;
  parsed_output_json = outcome.parsed_json;
  finished_at = some now;
  updated_at = now;
}

unfoldable pub finish : String → Outcome → ℕ → Queue → Option TaskView × Queue
unfolding get add_event
finish task_id outcome now queue =
    let queue' : Queue =
      add_event
        (record {
          task_id = some task_id;
          event =
              if starts_with outcome.status "failed"
              then "execution_failed"
              else "execution_succeeded";
          source = "worker";
          status = outcome.status;
          payload_json = outcome.event_json;
          created_at = now;
        })
        (record queue { tasks = update id_of task_id (finished now outcome) queue.tasks }) in
    (get task_id queue', queue')
