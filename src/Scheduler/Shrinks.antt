-- ===== src/Scheduler/Shrinks.antt =====
-- A round makes what is left smaller, unless it does nothing but wait.
use softos_sdd_orchestrator.Prelude.{
  ℕ, ◌≤◌, ◌<◌, String, true, ◌≡◌, ◌⊎◌, ◌∙◌, Option, none, some, List, [], arith, Option-cases, inl,
  inr,
}
use softos_sdd_orchestrator.Scheduler.Plan.{Job, WaitReason, lock_wait}
use softos_sdd_orchestrator.Scheduler.State.{SchedulerConfig, LockTable, Sched}
use softos_sdd_orchestrator.Scheduler.Loop.{
  is_pending, find_job, gate, mark_wait, try_locks, try_start, Round,
}
use softos_sdd_orchestrator.Scheduler.Sound.{IsSound, AreDistinct}
use softos_sdd_orchestrator.Scheduler.Kept.{IsKept}
use softos_sdd_orchestrator.Scheduler.Rounds.{IsSound-IsKept}
use softos_sdd_orchestrator.Scheduler.Preserve.{locks-IsSound}
use softos_sdd_orchestrator.Scheduler.Slack.{
  left, finish-left, mark_blocked-left, start-left, mark_wait-left,
}

module _ (L : LockTable) (config : SchedulerConfig) (pairs : List (String × String))
    (distinct : AreDistinct pairs) (n : ℕ) (Q : Sched L.Locks → Type 0)
    (quiet_futures : (futures : List (String × ℕ)) (s : Sched L.Locks)
      → Q s
      → Q (record s { futures = futures }))
    (quiet_locks : (locks : L.Locks) (s : Sched L.Locks) → Q s → Q (record s { locks = locks }))
    (quiet_wait : (job : Job) (reason : WaitReason) (s : Sched L.Locks)
      → Q s
      → Q (mark_wait L config pairs job reason s)) where
  open L use {Locks, acquire, release, heartbeat}

  -- Less than `n` is left, or `n` and only what keeps `Q` was done.
  abbrev pub Shrinks : Sched Locks → Type 0
  Shrinks s = (left L config pairs s < n) ⊎ ((left L config pairs s ≡ n) × Q s)

  pub at_most : (s : Sched Locks) → Shrinks s → left L config pairs s ≤ n
  at_most s (inl less) = omega (arith, less)
  at_most s (inr (same, q)) = omega (arith, same)

  mark_wait-Shrinks :
      (job : Job) (reason : WaitReason) (s : Sched Locks)
      → IsSound config pairs [] s
      → find_job job.slice s.jobs ≡ some job
      → Shrinks s
      → Shrinks (mark_wait L config pairs job reason s)
  mark_wait-Shrinks job reason s sound found (inl less) =
      inl (omega (arith, less, mark_wait-left L config pairs job reason s sound.unique found))
  mark_wait-Shrinks job reason s sound found (inr (same, q)) = inr (
    mark_wait-left L config pairs job reason s sound.unique found ∙ same,
    quiet_wait job reason s q,
  )

  with_locks : (locks : Locks) (s : Sched Locks) → Shrinks s → Shrinks (record s { locks = locks })
  with_locks locks s (inl less) = inl less
  with_locks locks s (inr (same, q)) = inr (same, quiet_locks locks s q)

  try_locks-Shrinks :
      (job : Job) (answer : Option String × Locks) (s : Sched Locks)
      → ((locks : Locks) → IsSound config pairs [] (record s { locks = locks }))
      → find_job job.slice s.jobs ≡ some job
      → is_pending job ≡ true
      → Shrinks s
      → Shrinks (try_locks L config pairs job answer s)
  unfolding try_locks
  try_locks-Shrinks job (some reason, locks) s sound found idle h =
      mark_wait-Shrinks job (lock_wait reason) (record s { locks = locks }) (sound locks) found
        (with_locks locks s h)
  try_locks-Shrinks job (none, locks) s sound found idle h = inl (
      omega (
        arith,
        at_most s h,
        start-left L config pairs job (record s { locks = locks }) (sound locks).unique found idle
            (((sound locks).fits job.slice job found).may_retry idle),
      ))

  try_start-Shrinks :
      (round : Round) (job : Job) (s : Sched Locks)
      → IsSound config pairs [] s
      → ((locks : Locks) → IsSound config pairs [] (record s { locks = locks }))
      → find_job job.slice s.jobs ≡ some job
      → is_pending job ≡ true
      → Shrinks s
      → Shrinks (try_start L config pairs round job s)
  unfolding try_start
  try_start-Shrinks round job s sound locked found idle h =
      elim (Option-cases (gate L config pairs s job)) [
        | inr (reason, shut) ↦ rw (shut, try_start) (mark_wait-Shrinks job reason s sound found h)
        | inl free ↦ rw (free, try_start) (try_locks-Shrinks job _ s locked found idle h)
      ]

  pub Shrinks-IsKept : IsKept L config pairs (λ rest s. IsSound config pairs rest s × Shrinks s)
  Shrinks-IsKept =
      let sound = IsSound-IsKept L config pairs distinct in
      record {
        sound = λ rest s (h, _). h;
        at_futures = λ rest others futures s same (h, c). (
          sound.at_futures rest others futures s same h,
          elim c [ inl less ↦ inl less | inr (e, q) ↦ inr (e, quiet_futures futures s q) ],
        );
        at_heartbeat = λ now s (h, c). (sound.at_heartbeat now s h, with_locks _ s c);
        at_finish = λ rest job worker rc s (h, c) found on. (
          sound.at_finish rest job worker rc s h found on,
          inl (
              omega
                (arith, at_most s c, finish-left L config pairs job worker rc s h.unique found on)),
        );
        at_block = λ name parent job s (h, c) found idle lost. (
          sound.at_block name parent job s h found idle lost,
          inl (
              omega (
                arith,
                at_most s c,
                mark_blocked-left L config pairs name parent job s h.unique found idle,
              )),
        );
        at_try = λ round job s (h, c) found idle. (
          sound.at_try round job s h found idle,
          try_start-Shrinks round job s h (λ locks. locks-IsSound L config pairs [] s locks h) found
              idle c,
        );
      }
