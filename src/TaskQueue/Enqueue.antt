-- ===== src/TaskQueue/Enqueue.antt =====
-- `enqueue` and its query for duplicates.
use softos_sdd_orchestrator.Prelude.{
  ℕ, ◌≤◌, String, true, false, ◌≡◌, Option, none, some, ◌==◌, if◌then◌else◌,
}
use softos_sdd_orchestrator.Table.{select, insert}
use softos_sdd_orchestrator.TaskQueue.Data.{Task, Queue, TaskView, id_of}
use softos_sdd_orchestrator.TaskQueue.Methods.{created_event, duplicates}

-- The answers for a record to insert and the start of the window, with the queue that is left.
pub data EnqueueOutcome (task : Task) (start : ℕ) (queue : Queue)
    : Option TaskView × Queue → Type 0 where
  repeated :
      {view : TaskView}
      → select id_of view.task.task_id queue.tasks ≡ some view.task
      → duplicates task.source task.intent task.payload_json start view.task ≡ true
      → ((id : String) (other : Task)
          → select id_of id queue.tasks ≡ some other
          → duplicates task.source task.intent task.payload_json start other ≡ true
          → view.task.created_at ≤ other.created_at)
      → EnqueueOutcome task start queue (some view, queue)
  refused :
      {other : Task}
      → select id_of task.task_id queue.tasks ≡ some other
      → EnqueueOutcome task start queue (none, queue)
  created :
      {view : TaskView} {queue' : Queue}
      → ((id : String) (other : Task)
          → select id_of id queue.tasks ≡ some other
          → duplicates task.source task.intent task.payload_json start other ≡ false)
      → select id_of task.task_id queue.tasks ≡ none
      → view.task ≡ task
      → ((id : String)
          → select id_of id queue'.tasks
            ≡ (if task.task_id == id then some task else select id_of id queue.tasks))
      → queue'.events ≡ insert (created_event task) queue.events
      → EnqueueOutcome task start queue (some view, queue')
