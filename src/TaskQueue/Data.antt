-- ===== src/TaskQueue/Data.antt =====
-- The tables of the queue, and what `get` answers. JSON columns hold the texts that `json.dumps`
-- made, and `command_json` and the like are such texts.
use softos_sdd_orchestrator.Prelude.{ℕ, String, Option, List, []}
use softos_sdd_orchestrator.Prelude.Int.{ℤ}

-- A row of `tasks`.
pub record Task : Type 0 where
  pub task_id : String
  pub source : String
  pub intent : String
  pub payload_json : String
  pub command_json : String
  pub response_target_json : Option String
  pub status : String
  pub stdout : Option String
  pub stderr : Option String
  pub parsed_output_json : Option String
  pub exit_code : Option ℤ
  pub created_at : ℕ
  pub started_at : Option ℕ
  pub finished_at : Option ℕ
  pub updated_at : ℕ

-- A row of `task_timeline`; its id is its place in the list.
pub record Comment : Type 0 where
  pub task_id : String
  pub actor : String
  pub message : String
  pub source : String
  pub direction : String
  pub created_at : ℕ

-- A row of `task_events`; its id is its place in the list.
pub record TaskEvent : Type 0 where
  pub task_id : Option String
  pub event : String
  pub source : String
  pub status : String
  pub payload_json : String
  pub created_at : ℕ

pub record Queue : Type 0 where
  pub tasks : List Task
  pub timeline : List Comment
  pub events : List TaskEvent

-- What `_inflate` puts together; the JSON columns are still texts.
pub record TaskView : Type 0 where
  pub task : Task
  pub timeline : List Comment
  pub events : List TaskEvent

abbrev pub id_of : Task → String
id_of task = task.task_id

abbrev pub empty : Queue
empty = record { tasks = []; timeline = []; events = [] }
