-- ===== src/Lib.antt =====
-- SoftOS, an orchestrator for spec-driven development: the `flowctl` command line plans features as
-- slices of work and runs them, and the `gateway` service takes requests from outside and runs
-- `flow` commands for them. This library models the parts that keep state and decide.
--
-- The files and the code that they model:
--   GlobalLocks     flowctl/locks.py: named leases in SQLite, shared by runs of the scheduler. A method
--                   of the class is the function of its name in GlobalLocks.antt; `_row` functions are
--                   what it does with the row that it finds.
--   SpecRegistry    gateway/app/store.py, the spec registry: Data has the tables, Helpers the helpers
--                   on an open connection, Methods the methods, Calls a request as data.
--   Scheduler       flowctl/multiagent.py: Plan reads the payload, State is the state of the run,
--                   LocalLocks the semantic locks of a run without backend, Loop the rounds,
--                   Whole `run_slice_scheduler` itself. Sound states the invariant; Changes, Moves,
--                   Preserve and Attempts have the lemmas on single operations, Kept those on the
--                   loops, and LockLaws the interface of the locks, with Locking and LocalLaws. Cycles
--                   and Stuck are about plans whose dependencies have a cycle. Ends is about plans
--                   without one. For it, Idle and LocalIdle say who may own a lock, SamePlan that the
--                   dependencies stay, Minimal and Ready find a job that can start, Starts and Blocks
--                   are about the two loops over the jobs of a round, Progress joins them; Slack
--                   measures what is left, Shrinks and Productive say when a round makes it smaller.
--   AgentExecutors  flowctl/agent_executors.py: Parse reads the registry of executors from the workspace
--                   configuration and detects duplicate keys; Valid and Keys have what holds of them.
--   AgentResources  flowctl/agent_resources.py: Availability, Selection, Registry and Models have the
--                   functions of the file; Sound is about the choice of candidates, Registered and
--                   Accepted about the registry, Least, Evident and Go about the models. Selection
--                   is what the reviewers of AgentRoles are chosen by, and Registry takes the
--                   executors.
--   AgentRoles      flowctl/agent_roles.py: Context has the roles of processes, Executors the choice
--                   of an orchestrator, Reviewers that of reviewers; Nested and Independent are about
--                   the first and the last.
--   QualityGates    flowctl/quality_gates.py: Risk, Gates and Matrix have the functions, LastTarget,
--                   Levels and Scores what holds of them.
--   TaskQueue       gateway/app/store.py, the queue of tasks: Data has the tables, Methods the methods,
--                   Calls a call as data, Journal the tables that only grow and the listings, Recent
--                   what one of them shows.
--   RateLimit       gateway/app/store.py, `check_rate_limit`.
--   Table           the SQL statements that the stores use on a keyed table, and transactions: a
--                   connection's `with` block commits when its body returns and rolls back when it
--                   raises, so a refused call leaves the database as it was.
--   Prelude         tests, texts (`strip`, `lower`, `upper`, order by code points), sorting, lists, dicts,
--                   JSON values, and results: `Holds` states what a result satisfies if there is one,
--                   and Collect is the loop that reads a JSON object into a dict of records.
--
-- Time is a number of whole seconds where the code keeps ISO texts of one format and offset, and of
-- microseconds in the scheduler. Clock readings, `uuid4`, the results of futures and the texts of
-- JSON values are arguments: a round of the scheduler gets what the environment answers in it, so a
-- run of any length is a list of rounds, and no bound on the number of rounds is assumed. Mutexes
-- and BEGIN IMMEDIATE make calls one after the other, so a run of several threads or processes is a
-- sequence of calls; the answer of a call on a spec, which the code reads on a new connection after
-- the transaction and the mutex, is read here in the state that the transaction leaves. Python's
-- arguments that may be negative are integers; the scheduler's configuration is of natural numbers.
-- JSON values are trees whose objects keep their keys in order; an error is a value with what its
-- message shows; a call that comes from outside, such as the discovery of models or the status of a
-- program, is a function or an outcome that is given. The pairs of the overlap graph are read in
-- the order of the names, where the code reads a set; this only chooses the pair that a reason to
-- wait names. Not modelled: connections and their settings, the scheduler's branch with a lock
-- backend, a worker that raises, the scheduler's times and report, the metrics in floats, the HTTP
-- layer, and the other commands of `flow`, which read and write files or call other programs.
pub mod Prelude
pub mod Table
pub mod GlobalLocks
pub mod SpecRegistry
pub mod Scheduler
pub mod AgentExecutors
pub mod AgentResources
pub mod AgentRoles
pub mod QualityGates
pub mod TaskQueue
pub mod RateLimit
