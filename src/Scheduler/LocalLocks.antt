-- ===== src/Scheduler/LocalLocks.antt =====
-- The semantic locks of one run: the branch of `_acquire_locks`, `_release_locks` and
-- `_heartbeat_running_locks` without a lock backend. Times are in microseconds.
use softos_sdd_orchestrator.Prelude.{
  ℕ, ◌+◌, ◌*◌, String, Option, none, some, List, [], ◌∷◌, ◌++◌, ◌==◌, leb, if◌then◌else◌,
}
use softos_sdd_orchestrator.Prelude.Text.{concat}
use softos_sdd_orchestrator.Prelude.Lists.{contains}
use softos_sdd_orchestrator.Table.{insert, select, update}
use softos_sdd_orchestrator.Scheduler.Plan.{Job}
use softos_sdd_orchestrator.Scheduler.State.{SchedulerConfig, LockTable}

-- An entry of `lock_table`. The owner is the slice of a job, a stripped text.
pub record Entry : Type 0 where
  pub lock : String
  pub owner : String
  pub reason : String
  pub expires_epoch : ℕ

-- An entry of `lock_events`, without its time.
pub record TableEvent : Type 0 where
  pub event : String
  pub lock : String
  pub owner : String
  pub reason : String

pub record LocalTable : Type 0 where
  pub entries : List Entry
  pub events : List TableEvent

abbrev pub lock_of : Entry → String
lock_of entry = entry.lock

abbrev pub no_locks : LocalTable
no_locks = record { entries = []; events = [] }

-- float(config.lock_ttl_seconds)
abbrev pub ttl : SchedulerConfig → ℕ
ttl config = config.lock_ttl_seconds * 1_000_000

-- _lock_event
unfoldable pub lock_event : String → String → String → String → LocalTable → LocalTable
lock_event event lock owner reason table = record table {
  events =
      insert (record { event = event; lock = lock; owner = owner; reason = reason }) table.events;
}

abbrev pub renewed : ℕ → Entry → Entry
renewed until entry = record entry { reason = "heartbeat-renew"; expires_epoch = until }

-- The loop over the entries that have run out: those of running jobs are renewed, the others go.
unfoldable pub sweep : ℕ → ℕ → List String → List Entry → List Entry
sweep now until running [] = []
sweep now until running (entry ∷ entries) =
    let rest = sweep now until running entries in
    if leb entry.expires_epoch now
    then (if contains entry.owner running then renewed until entry ∷ rest else rest)
    else entry ∷ rest

-- The events of that loop.
unfoldable pub sweep_events : ℕ → List String → List Entry → List TableEvent
sweep_events now running [] = []
sweep_events now running (entry ∷ entries) =
    let rest = sweep_events now running entries in
    if leb entry.expires_epoch now
    then (if contains entry.owner running
        then rest
        else record {
          event = "expire";
          lock = entry.lock;
          owner = entry.owner;
          reason = "ttl-expired";
        }
          ∷ rest)
    else rest

-- The first lock of the list that another job owns, with that owner.
unfoldable pub owned_by_other : String → List String → List Entry → Option (String × String)
owned_by_other slice [] entries = none
owned_by_other slice (lock ∷ locks) entries =
    let rest = owned_by_other slice locks entries in
    elim (select lock_of lock entries) [
      | none ↦ rest
      | some entry ↦ if entry.owner == slice then rest else some (lock, entry.owner)
    ]

-- lock_table[lock_name] = {...}
unfoldable pub put_entry : Entry → List Entry → List Entry
put_entry entry entries = elim (select lock_of entry.lock entries) [
  | none ↦ insert entry entries
  | some _ ↦ update lock_of entry.lock (λ _. entry) entries
]

unfoldable pub take_locks : String → ℕ → List String → LocalTable → LocalTable
unfolding lock_event
take_locks slice until [] table = table
take_locks slice until (lock ∷ locks) table = take_locks slice until locks (
    lock_event "acquire" lock slice "slice-execution" (record table {
      entries =
          put_entry
            (record {
              lock = lock;
              owner = slice;
              reason = "slice-execution";
              expires_epoch = until;
            })
            table.entries;
    }))

unfoldable pub swept : SchedulerConfig → ℕ → List String → LocalTable → LocalTable
swept config now running table = record {
  entries = sweep now (now + ttl config) running table.entries;
  events = table.events ++ sweep_events now running table.entries;
}

-- _acquire_locks
unfoldable pub acquire_locks :
    SchedulerConfig → ℕ → List String → Job → LocalTable → Option String × LocalTable
acquire_locks config now running job table =
    let table' = swept config now running table in
    elim (owned_by_other job.slice job.semantic_locks table'.entries) [
      | some (lock, owner) ↦ (
        some (concat ("semantic-lock:" ∷ lock ∷ [])),
        lock_event "denied" lock job.slice (concat ("owned-by:" ∷ owner ∷ [])) table',
      )
      | none ↦ (none, take_locks job.slice (now + ttl config) job.semantic_locks table')
    ]

-- The entries that a job does not own, and the events of dropping its own.
unfoldable pub without_owner : String → List Entry → List Entry
without_owner slice [] = []
without_owner slice (entry ∷ entries) =
    let rest = without_owner slice entries in if entry.owner == slice then rest else entry ∷ rest

unfoldable pub release_events : String → List Entry → List TableEvent
release_events slice [] = []
release_events slice (entry ∷ entries) =
    let rest = release_events slice entries in
    if entry.owner == slice
    then record { event = "release"; lock = entry.lock; owner = slice; reason = "slice-finished" }
      ∷ rest
    else rest

-- _release_locks
unfoldable pub release_locks : Job → LocalTable → LocalTable
release_locks job table = record {
  entries = without_owner job.slice table.entries;
  events = table.events ++ release_events job.slice table.entries;
}

unfoldable pub beat_entries : ℕ → List String → List Entry → List Entry
beat_entries until running [] = []
beat_entries until running (entry ∷ entries) =
    (if contains entry.owner running then renewed until entry else entry)
    ∷ beat_entries until running entries

-- _heartbeat_running_locks
unfoldable pub heartbeat_locks : SchedulerConfig → ℕ → List String → LocalTable → LocalTable
heartbeat_locks config now running table = record table {
  entries = beat_entries (now + ttl config) running table.entries;
}

abbrev pub local_locks : SchedulerConfig → LockTable
local_locks config = record {
  Locks = LocalTable;
  acquire = acquire_locks config;
  release = release_locks;
  heartbeat = heartbeat_locks config;
}
