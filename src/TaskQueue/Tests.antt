-- ===== src/TaskQueue/Tests.antt =====
-- Runs of the queue, and the theorems at concrete inputs.
use softos_sdd_orchestrator.Prelude.{◌-◌, false, ◌≡◌, refl, none, some, [], ◌∷◌, ◌==◌}
use softos_sdd_orchestrator.Prelude.Int.{at_least_one, pos, negsuc}
use softos_sdd_orchestrator.Table.{select_where, insert, select, update}
use softos_sdd_orchestrator.Table.Laws.{IsUnique}
use softos_sdd_orchestrator.TaskQueue.Data.{Task, Queue, TaskView, id_of, empty}
use softos_sdd_orchestrator.TaskQueue.Methods.{
  earliest, update_where, add_event, get, reset_running_tasks, claimed, claim_next, new_task,
  created_event, put_task, enqueue, append_comment, Outcome, finish,
}
use softos_sdd_orchestrator.TaskQueue.Claim.{ClaimOutcome, claim_next_outcome}
use softos_sdd_orchestrator.TaskQueue.Calls.{Call, handle, handle_all, claimed_once}
use softos_sdd_orchestrator.TaskQueue.Recent.{IsRecent, recent_tasks-IsRecent}
use softos_sdd_orchestrator.TaskQueue.Journal.{
  recent_tasks, AuthEntry, take, newest_first, record_auth_audit, list_auth_audit,
  list_auth_audit-record_auth_audit,
}

program : Unit {0}
unfolding select_where insert select update earliest update_where add_event get reset_running_tasks
    claim_next put_task enqueue append_comment finish handle handle_all
program = tt

abbrev first : Task
first = new_task "a" "slack" "status" "{}" "[]" none 10

abbrev second : Task
second = new_task "b" "slack" "plan" "{}" "[]" none 20

-- Two different requests, and the first one again before its window of 300 seconds is over.
abbrev two_tasks : Queue
two_tasks =
    handle_all
      (Call.enqueue "a" 10 10 (pos 300) "slack" "status" "{}" "[]" none
        ∷ Call.enqueue "b" 20 20 (pos 300) "slack" "plan" "{}" "[]" none
        ∷ Call.enqueue "c" 30 30 (pos 300) "slack" "status" "{}" "[]" none
        ∷ [])
      empty

two_tasks_stored : two_tasks.tasks ≡ first ∷ second ∷ []
unfolding program
two_tasks_stored = refl

-- With no window, the same request is a new task.
no_window :
    (handle (Call.enqueue "c" 30 31 (negsuc 0) "slack" "status" "{}" "[]" none) two_tasks).tasks
    ≡ first ∷ second ∷ new_task "c" "slack" "status" "{}" "[]" none 30 ∷ []
unfolding program
no_window = refl

abbrev failure : Outcome
failure = record {
  status = "failed-timeout";
  exit_code = pos 124;
  stdout = "";
  stderr = "late";
  parsed_json = none;
  event_json = "{\"exit_code\": 124}";
}

abbrev waiting : Queue
waiting = record {
  tasks = first ∷ second ∷ [];
  timeline = [];
  events = created_event first ∷ created_event second ∷ [];
}

failure_event :
    (handle (Call.finish "a" failure 50) waiting).events
    ≡ created_event first
      ∷ created_event second
      ∷ record {
        task_id = some "a";
        event = "execution_failed";
        source = "worker";
        status = "failed-timeout";
        payload_json = "{\"exit_code\": 124}";
        created_at = 50;
      }
      ∷ []
unfolding program
failure_event = refl

abbrev first_view : TaskView
first_view = record { task = claimed 40 first; timeline = []; events = created_event first ∷ [] }

abbrev second_view : TaskView
second_view = record { task = claimed 60 second; timeline = []; events = created_event second ∷ [] }

first_claimed : (claim_next 40 waiting).0 ≡ some first_view
unfolding program
first_claimed = refl

second_claimed :
    (claim_next 60 (handle_all (Call.finish "a" failure 50 ∷ []) ((claim_next 40 waiting).1))).0
    ≡ some second_view
unfolding program
second_claimed = refl

waiting-IsUnique : IsUnique id_of waiting.tasks
unfolding program
waiting-IsUnique = (refl, (refl, tt))

claim_next_outcome_example : ClaimOutcome 40 waiting (claim_next 40 waiting)
claim_next_outcome_example = claim_next_outcome 40 waiting waiting-IsUnique

claimed_once_example : (first_view.task.task_id == second_view.task.task_id) ≡ false
claimed_once_example =
    claimed_once waiting 40 60 (Call.finish "a" failure 50 ∷ []) first_view second_view
      waiting-IsUnique (refl, tt) first_claimed second_claimed

abbrev denied : AuthEntry
denied = record {
  actor = some "ann";
  source = "slack";
  endpoint = "/intents";
  decision = "deny";
  reason_code = "bad-signature";
  correlation_id = none;
  created_at = 10;
}

abbrev admitted : AuthEntry
admitted = record denied { decision = "allow"; reason_code = "ok"; created_at = 20 }

list_auth_audit-record_auth_audit_example :
    list_auth_audit (pos 1) (record_auth_audit admitted (denied ∷ []))
    ≡ admitted ∷ take (at_least_one (pos 1) - 1) (newest_first (denied ∷ []))
list_auth_audit-record_auth_audit_example =
    list_auth_audit-record_auth_audit (pos 1) admitted (denied ∷ [])

recent_tasks-IsRecent_example : IsRecent (pos 1) waiting.tasks (recent_tasks (pos 1) waiting)
recent_tasks-IsRecent_example = recent_tasks-IsRecent (pos 1) waiting
