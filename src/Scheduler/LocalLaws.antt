-- ===== src/Scheduler/LocalLaws.antt =====
-- The semantic locks of one run as an instance of LockLaws.
use mathlib.Core.Option
use softos_sdd_orchestrator.Prelude.{
  ℕ, ◌+◌, String, true, false, ◌≡◌, refl, Option, none, some, List, [], ◌∷◌, ◌∙◌, arith, ◌==◌,
  eq_iff, if◌then◌else◌, Bool-cases, Option-cases, inl, inr,
}
use softos_sdd_orchestrator.Prelude.Lists.{contains}
use softos_sdd_orchestrator.Table.{select}
use softos_sdd_orchestrator.Table.Laws.{select-insert}
use softos_sdd_orchestrator.Table.Replace.{select-replaced}
use softos_sdd_orchestrator.Scheduler.Plan.{Job}
use softos_sdd_orchestrator.Scheduler.State.{SchedulerConfig}
use softos_sdd_orchestrator.Scheduler.LocalLocks.{
  Entry, LocalTable, lock_of, ttl, sweep, swept, owned_by_other, put_entry, take_locks, lock_event,
  acquire_locks, without_owner, release_locks, beat_entries, heartbeat_locks, local_locks,
}
use softos_sdd_orchestrator.Scheduler.LockLaws.{LockLaws}
use softos_sdd_orchestrator.Scheduler.Changes.{none-some}

-- The owner of a lock.
unfoldable pub owner_in : String → List Entry → Option String
owner_in lock entries = Option.map (λ entry. entry.owner) (select lock_of lock entries)

owner_in-sweep :
    (now until : ℕ) (running : List String) (lock holder : String) (entries : List Entry)
    → owner_in lock entries ≡ some holder
    → contains holder running ≡ true
    → owner_in lock (sweep now until running entries) ≡ some holder
unfolding owner_in sweep select
owner_in-sweep now until running lock holder [] e h = absurd (ground arith)
owner_in-sweep now until running lock holder (entry ∷ entries) e h =
    ground (arith, owner_in-sweep now until running lock holder entries)

owned_by_other-none :
    (slice lock : String) (locks : List String) (entries : List Entry) (holder : String)
    → owned_by_other slice locks entries ≡ none
    → contains lock locks ≡ true
    → owner_in lock entries ≡ some holder
    → holder ≡ slice
unfolding owned_by_other owner_in
owned_by_other-none slice lock [] entries holder e h o = absurd (ground arith)
owned_by_other-none slice lock (first ∷ locks) entries holder e h o =
    elim (Bool-cases (first == lock)) [
      | inl here ↦ ground (arith, eq_iff first lock, eq_iff holder slice)
      | inr there ↦
          owned_by_other-none slice lock locks entries holder (ground (arith)) (rw there at h) o
    ]

owner_in-put_entry :
    (entry : Entry) (lock : String) (entries : List Entry)
    → owner_in lock (put_entry entry entries)
      ≡ (if entry.lock == lock then some entry.owner else owner_in lock entries)
unfolding owner_in put_entry
owner_in-put_entry entry lock entries = elim (Option-cases (select lock_of entry.lock entries)) [
  | inl absent ↦
      rw (absent, put_entry) (ground (arith, select-insert lock_of entry lock entries absent))
  | inr (old, found) ↦
      rw (found, put_entry)
        (ground (arith, select-replaced lock_of entry lock entries, eq_iff entry.lock lock))
]

owner_in-take_locks :
    (slice lock : String) (until : ℕ) (locks : List String) (table : LocalTable)
    → owner_in lock ((take_locks slice until locks table).entries)
      ≡ (if contains lock locks then some slice else owner_in lock table.entries)
unfolding take_locks lock_event
owner_in-take_locks slice lock until [] table = refl
owner_in-take_locks slice lock until (first ∷ locks) table =
    let entry : Entry = record {
      lock = first;
      owner = slice;
      reason = "slice-execution";
      expires_epoch = until;
    } in
    let next : LocalTable =
      lock_event "acquire" first slice "slice-execution"
        (record table { entries = put_entry entry table.entries }) in
    ground (
      arith,
      owner_in-take_locks slice lock until locks next,
      owner_in-put_entry entry lock table.entries,
    )

owner_in-without_owner :
    (slice lock holder : String) (entries : List Entry)
    → owner_in lock entries ≡ some holder
    → (slice == holder) ≡ false
    → owner_in lock (without_owner slice entries) ≡ some holder
unfolding owner_in without_owner select
owner_in-without_owner slice lock holder [] e h = absurd (ground arith)
owner_in-without_owner slice lock holder (entry ∷ entries) e h = ground (
  arith,
  owner_in-without_owner slice lock holder entries,
  eq_iff slice holder,
  eq_iff entry.owner slice,
)

owner_in-beat_entries :
    (until : ℕ) (running : List String) (lock : String) (entries : List Entry)
    → owner_in lock (beat_entries until running entries) ≡ owner_in lock entries
unfolding owner_in beat_entries select
owner_in-beat_entries until running lock [] = refl
owner_in-beat_entries until running lock (entry ∷ entries) =
    ground (arith, owner_in-beat_entries until running lock entries)

acquire_locks-granted :
    (config : SchedulerConfig) (now : ℕ) (running : List String) (job : Job) (table : LocalTable)
    (lock : String)
    → (acquire_locks config now running job table).0 ≡ none
    → (owned_by_other job.slice job.semantic_locks ((swept config now running table).entries)
        ≡ none)
      × (owner_in lock ((acquire_locks config now running job table).1.entries) ≡ (
          if contains lock job.semantic_locks
          then some job.slice
          else owner_in lock ((swept config now running table).entries)))
unfolding acquire_locks
acquire_locks-granted config now running job table lock granted =
    let table' = swept config now running table in
    elim (Option-cases (owned_by_other job.slice job.semantic_locks table'.entries)) [
      | inl free ↦ (
        free,
        rw (free, acquire_locks)
            (owner_in-take_locks job.slice lock (now + ttl config) job.semantic_locks table'),
      )
      | inr (other, taken) ↦ absurd (none-some (rw (taken, acquire_locks) at granted))
    ]

acquire_locks-kept :
    (config : SchedulerConfig) (now : ℕ) (running : List String) (job : Job) (table : LocalTable)
    (lock holder : String)
    → owner_in lock table.entries ≡ some holder
    → contains holder running ≡ true
    → contains job.slice running ≡ false
    → owner_in lock ((acquire_locks config now running job table).1.entries) ≡ some holder
unfolding acquire_locks swept lock_event
acquire_locks-kept config now running job table lock holder own on off =
    let table' = swept config now running table in
    let still : owner_in lock table'.entries ≡ some holder =
      owner_in-sweep now (now + ttl config) running lock holder table.entries own on in
    let unlike : holder ≡ job.slice → ⊥ = λ e. absurd (ground (arith, e)) in
    elim (Option-cases (owned_by_other job.slice job.semantic_locks table'.entries)) [
      | inr (other, taken) ↦ rw (taken, acquire_locks) still
      | inl free ↦
          rw (free, acquire_locks)
            (ground (
              arith,
              owner_in-take_locks job.slice lock (now + ttl config) job.semantic_locks table',
              owned_by_other-none job.slice lock job.semantic_locks table'.entries holder free,
            ))
    ]

pub local_locks-LockLaws : (config : SchedulerConfig) → LockLaws (local_locks config)
unfolding acquire_locks swept lock_event release_locks heartbeat_locks
local_locks-LockLaws config = record {
  owner = λ lock table. owner_in lock table.entries;
  acquire_kept = λ now running job table lock holder own on off.
      acquire_locks-kept config now running job table lock holder own on off;
  acquire_taken = λ now running job table lock granted wanted.
      ground (arith, (acquire_locks-granted config now running job table lock granted).1);
  release_kept = λ job table lock holder own other.
      owner_in-without_owner job.slice lock holder table.entries own other;
  heartbeat_kept = λ now running table lock holder own.
      owner_in-beat_entries (now + ttl config) running lock table.entries ∙ own;
}
