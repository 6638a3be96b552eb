-- ===== src/Scheduler/LocalIdle.antt =====
-- The local locks are owned by running jobs only.
use softos_sdd_orchestrator.Prelude.{
  ℕ, ◌+◌, String, true, ◌≡◌, refl, ◌∙◌, none, some, List, [], ◌∷◌, arith, ◌==◌, eq_iff, Bool-cases,
  Option-cases, inl, inr, leb,
}
use mathlib.Core.Option.{none-ne-some}
use softos_sdd_orchestrator.Prelude.Lists.{All, contains}
use softos_sdd_orchestrator.Table.{insert, select, update}
use softos_sdd_orchestrator.Scheduler.Plan.{Job}
use softos_sdd_orchestrator.Scheduler.State.{SchedulerConfig, discard}
use softos_sdd_orchestrator.Scheduler.Counts.{contains-discard}
use softos_sdd_orchestrator.Scheduler.LocalLocks.{
  Entry, LocalTable, lock_of, ttl, lock_event, sweep, owned_by_other, put_entry, take_locks, swept,
  acquire_locks, without_owner, release_locks, beat_entries, heartbeat_locks, local_locks, no_locks,
}
use softos_sdd_orchestrator.Scheduler.Idle.{IdleLaws}

-- Each entry is owned by one of the names.
abbrev OwnedBy : List String → List Entry → Type 0
OwnedBy names entries = All (λ (e : Entry). contains e.owner names ≡ true) entries

sweep-OwnedBy :
    (now until : ℕ) (running names : List String) (entries : List Entry)
    → OwnedBy names entries
    → OwnedBy names (sweep now until running entries)
unfolding sweep
sweep-OwnedBy now until running names [] h = tt
sweep-OwnedBy now until running names (e ∷ es) (own, h) =
    let rest = sweep-OwnedBy now until running names es h in
    elim (Bool-cases (leb e.expires_epoch now)) [
      | inr fresh ↦ rw (fresh, sweep) (own, rest)
      | inl old ↦ elim (Bool-cases (contains e.owner running)) [
        | inl on ↦ rw (old, sweep) (rw on (own, rest))
        | inr off ↦ rw (old, sweep) (rw off rest)
      ]
    ]

more-OwnedBy :
    (name : String) (names : List String) (entries : List Entry)
    → OwnedBy names entries
    → OwnedBy (name ∷ names) entries
more-OwnedBy name names [] h = tt
more-OwnedBy name names (e ∷ es) (own, h) = (ground (arith, own), more-OwnedBy name names es h)

insert-OwnedBy :
    (names : List String) (e : Entry) (entries : List Entry)
    → contains e.owner names ≡ true
    → OwnedBy names entries
    → OwnedBy names (insert e entries)
unfolding insert
insert-OwnedBy names e [] own h = (own, tt)
insert-OwnedBy names e (x ∷ es) own (other, h) = (other, insert-OwnedBy names e es own h)

update-OwnedBy :
    (names : List String) (k : String) (e : Entry) (entries : List Entry)
    → contains e.owner names ≡ true
    → OwnedBy names entries
    → OwnedBy names (update lock_of k (λ _. e) entries)
unfolding update
update-OwnedBy names k e [] own h = tt
update-OwnedBy names k e (x ∷ es) own (other, h) = elim (Bool-cases (x.lock == k)) [
  | inl same ↦ rw (same, update) (own, update-OwnedBy names k e es own h)
  | inr differ ↦ rw (differ, update) (other, update-OwnedBy names k e es own h)
]

put_entry-OwnedBy :
    (names : List String) (e : Entry) (entries : List Entry)
    → contains e.owner names ≡ true
    → OwnedBy names entries
    → OwnedBy names (put_entry e entries)
unfolding put_entry
put_entry-OwnedBy names e entries own h = elim (Option-cases (select lock_of e.lock entries)) [
  | inl absent ↦ rw (absent, put_entry) (insert-OwnedBy names e entries own h)
  | inr (_, found) ↦ rw (found, put_entry) (update-OwnedBy names e.lock e entries own h)
]

take_locks-OwnedBy :
    (slice : String) (until : ℕ) (locks names : List String) (table : LocalTable)
    → contains slice names ≡ true
    → OwnedBy names table.entries
    → OwnedBy names (take_locks slice until locks table).entries
unfolding take_locks lock_event
take_locks-OwnedBy slice until [] names table own h = h
take_locks-OwnedBy slice until (lock ∷ locks) names table own h =
    take_locks-OwnedBy slice until locks names _ own (put_entry-OwnedBy names _ table.entries own h)

without_owner-OwnedBy :
    (slice : String) (names : List String) (entries : List Entry)
    → OwnedBy names entries
    → OwnedBy (discard slice names) (without_owner slice entries)
unfolding without_owner
without_owner-OwnedBy slice names [] h = tt
without_owner-OwnedBy slice names (e ∷ es) (own, h) = elim (Bool-cases (e.owner == slice)) [
  | inl mine ↦ rw (mine, without_owner) (without_owner-OwnedBy slice names es h)
  | inr other ↦
      rw (other, without_owner)
        (
          contains-discard slice e.owner names
              ∙ ground (arith, own, other, eq_iff slice e.owner, eq_iff e.owner slice),
          without_owner-OwnedBy slice names es h,
        )
]

beat_entries-OwnedBy :
    (until : ℕ) (running names : List String) (entries : List Entry)
    → OwnedBy names entries
    → OwnedBy names (beat_entries until running entries)
unfolding beat_entries
beat_entries-OwnedBy until running names [] h = tt
beat_entries-OwnedBy until running names (e ∷ es) (own, h) =
    elim (Bool-cases (contains e.owner running)) [
      | inl on ↦ rw (on, beat_entries) (own, beat_entries-OwnedBy until running names es h)
      | inr off ↦ rw (off, beat_entries) (own, beat_entries-OwnedBy until running names es h)
    ]

-- Without entries no lock is owned by another job.
owned_by_other-none :
    (slice : String) (locks : List String) (entries : List Entry)
    → OwnedBy [] entries
    → owned_by_other slice locks entries ≡ none
unfolding owned_by_other select
owned_by_other-none slice [] entries h = refl
owned_by_other-none slice (lock ∷ locks) [] h = owned_by_other-none slice locks [] tt
owned_by_other-none slice (lock ∷ locks) (e ∷ es) (own, h) = absurd (ground (arith, own))

module _ (config : SchedulerConfig) where
  acquire-free :
      (now : ℕ) (job : Job) (table : LocalTable)
      → OwnedBy [] table.entries
      → (acquire_locks config now [] job table).0 ≡ none
  unfolding acquire_locks swept
  acquire-free now job table h =
      rw
        (
          owned_by_other-none job.slice job.semantic_locks
              (sweep now (now + ttl config) [] table.entries)
              (sweep-OwnedBy now (now + ttl config) [] [] table.entries h),
          acquire_locks,
        )
        refl

  acquire-granted :
      (now : ℕ) (running : List String) (job : Job) (table : LocalTable)
      → OwnedBy running table.entries
      → OwnedBy (job.slice ∷ running) (acquire_locks config now running job table).1.entries
  unfolding acquire_locks swept lock_event
  acquire-granted now running job table h =
      let kept : OwnedBy (job.slice ∷ running)
          (sweep now (now + ttl config) running table.entries) =
        more-OwnedBy job.slice running _
          (sweep-OwnedBy now (now + ttl config) running running table.entries h) in
      elim (Option-cases (
        owned_by_other job.slice job.semantic_locks
          (sweep now (now + ttl config) running table.entries))) [
            | inl free ↦
                rw (free, acquire_locks)
                  (take_locks-OwnedBy job.slice (now + ttl config) job.semantic_locks
                    (job.slice ∷ running) _ (ground (arith, eq_iff job.slice job.slice)) kept)
            | inr (taken, found) ↦ rw (found, acquire_locks) kept
          ]

  acquire-refused :
      (now : ℕ) (running : List String) (job : Job) (table : LocalTable) (reason : String)
      → OwnedBy running table.entries
      → (acquire_locks config now running job table).0 ≡ some reason
      → OwnedBy running (acquire_locks config now running job table).1.entries
  unfolding acquire_locks swept lock_event
  acquire-refused now running job table reason h refused =
      elim (Option-cases (
        owned_by_other job.slice job.semantic_locks
          (sweep now (now + ttl config) running table.entries))) [
            | inl free ↦ absurd (none-ne-some reason (rw (free, acquire_locks) at refused))
            | inr (taken, found) ↦
                rw (found, acquire_locks)
                  (sweep-OwnedBy now (now + ttl config) running running table.entries h)
          ]

  pub local_locks-IdleLaws : IdleLaws (local_locks config)
  unfolding release_locks heartbeat_locks
  local_locks-IdleLaws = record {
    OnlyOf = λ names (table : LocalTable). OwnedBy names table.entries;
    acquire_free = acquire-free;
    acquire_granted = acquire-granted;
    acquire_refused = acquire-refused;
    release_only = λ running job table h. without_owner-OwnedBy job.slice running table.entries h;
    heartbeat_only = λ now running table h.
        beat_entries-OwnedBy (now + ttl config) running running table.entries h;
  }

  -- Before the first round no lock is owned.
  pub no_locks-OnlyOf : local_locks-IdleLaws.OnlyOf [] no_locks
  unfolding local_locks-IdleLaws
  no_locks-OnlyOf = tt
