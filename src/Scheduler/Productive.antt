-- ===== src/Scheduler/Productive.antt =====
-- A round in which a running job returns, or nothing runs, makes what is left smaller.
use softos_sdd_orchestrator.Prelude.{
  ℕ, ◌≤◌, ◌<◌, String, true, false, ◌≡◌, ◌⊎◌, refl, sym, ◌∙◌, ap, subst, some, List, [], ◌∷◌, arith,
  ◌==◌, eq_iff, Bool-cases, Option-cases, inl, inr,
}
use mathlib.Core.Option.{none-ne-some}
use softos_sdd_orchestrator.Prelude.Int.{ℤ}
use softos_sdd_orchestrator.Prelude.Lists.{contains}
use softos_sdd_orchestrator.Table.{insert}
use softos_sdd_orchestrator.Table.Count.{total, total-insert}
use softos_sdd_orchestrator.Table.Laws.{select-key}
use softos_sdd_orchestrator.Scheduler.Plan.{slice_of, sorted_names}
use softos_sdd_orchestrator.Scheduler.State.{SchedulerConfig, LockTable, Sched}
use softos_sdd_orchestrator.Scheduler.Loop.{
  is_running, find_job, finish, finalize, Round, round_step,
}
use softos_sdd_orchestrator.Scheduler.Sound.{IsSound, AreDistinct, runs, future_load}
use softos_sdd_orchestrator.Scheduler.Attempts.{future-runs}
use softos_sdd_orchestrator.Scheduler.Kept.{
  IsKept, finalize-kept, block_all-kept, schedule-kept, round_step-kept,
}
use softos_sdd_orchestrator.Scheduler.Rounds.{IsSound-IsKept}
use softos_sdd_orchestrator.Scheduler.Slack.{left, finish-left}
use softos_sdd_orchestrator.Scheduler.Shrinks.{Shrinks, Shrinks-IsKept, at_most}

-- In this round nothing runs, or a running job returns.
abbrev pub IsAnswering : {Locks : Type 0} → Round → Sched Locks → Type 0
IsAnswering round s =
    (s.running_jobs ≡ [])
    ⊎ ((name : String) × ((rc : ℤ) × (contains name s.running_jobs ≡ true)
          × (round.result name ≡ some rc)))

module _ (L : LockTable) (config : SchedulerConfig) (pairs : List (String × String))
    (distinct : AreDistinct pairs) where
  open L use {Locks, acquire, release, heartbeat}

  -- Nothing is ever added to what is left.
  module _ (n : ℕ) where
    abbrev Within : List (String × ℕ) → Sched Locks → Type 0
    Within rest s =
        IsSound config pairs rest s
        × Shrinks L config pairs distinct n (λ _. Unit) (λ _ _ _. tt) (λ _ _ _. tt) (λ _ _ _ _. tt)
            s

    Within-IsKept : IsKept L config pairs Within
    Within-IsKept =
        Shrinks-IsKept L config pairs distinct n (λ _. Unit) (λ _ _ _. tt) (λ _ _ _. tt)
          (λ _ _ _ _. tt)

    left_at_most : (s : Sched Locks) → Within [] s → left L config pairs s ≤ n
    left_at_most s (_, h) =
        at_most L config pairs distinct n (λ _. Unit) (λ _ _ _. tt) (λ _ _ _. tt) (λ _ _ _ _. tt) s
          h

  finalize-left :
      (round : Round) (futures : List (String × ℕ)) (s : Sched Locks) (name : String) (rc : ℤ)
      → IsSound config pairs futures s
      → 1 ≤ total (future_load name) futures
      → round.result name ≡ some rc
      → left L config pairs (finalize L config pairs round futures s) < left L config pairs s
  unfolding finalize total
  finalize-left round [] s name rc sound listed answer = absurd (omega (arith, listed))
  finalize-left round ((other, worker) ∷ futures) s name rc sound listed answer =
      elim (Option-cases (round.result other)) [
        | inl open_future ↦
            let differ : (other == name) ≡ false = elim (Bool-cases (other == name)) [
              | inr apart ↦ apart
              | inl same ↦ absurd (
                  none-ne-some rc
                    (sym open_future ∙ ap round.result ((eq_iff other name).0 same) ∙ answer))
            ] in
            rw (open_future, finalize)
              (finalize-left round futures (record s { futures = insert (other, worker) s.futures })
                name rc
                ((IsSound-IsKept L config pairs distinct).at_futures ((other, worker) ∷ futures)
                  futures (insert (other, worker) s.futures) s
                  (λ n. omega (arith, total-insert (future_load n) (other, worker) s.futures))
                  sound)
                (omega (arith, rw differ at listed)) answer)
        | inr (code, done) ↦
            let on : runs other s.jobs ≡ true =
              future-runs L config pairs other worker futures s sound in
            elim (Option-cases (find_job other s.jobs)) [
              | inl absent ↦ absurd (ground (arith, on))
              | inr (job, found) ↦
                  let named : job.slice ≡ other = select-key slice_of other s.jobs found in
                  let here : find_job job.slice s.jobs ≡ some job =
                    subst (λ n. find_job n s.jobs ≡ some job) (sym named) found in
                  let running : is_running job ≡ true = ground (arith, on) in
                  let after = finish L config pairs job worker code s in
                  let sound_after =
                    (IsSound-IsKept L config pairs distinct).at_finish futures job worker code s
                      (subst (λ n. IsSound config pairs ((n, worker) ∷ futures) s) (sym named)
                        sound)
                      here running in
                  let less =
                    finish-left L config pairs job worker code s sound.unique here running in
                  let rest = left_at_most (left L config pairs after) _ (
                    finalize-kept L config pairs (Within (left L config pairs after))
                      (Within-IsKept (left L config pairs after)) round futures after
                      (sound_after, inr (refl, tt))) in
                  rw (done, finalize) (rw found (omega (arith, less, rest)))
            ]
      ]

  -- A running job returns.
  pub round_step-left :
      (round : Round) (s : Sched Locks) (name : String) (rc : ℤ)
      → IsSound config pairs [] s
      → contains name s.running_jobs ≡ true
      → round.result name ≡ some rc
      → left L config pairs (round_step L config pairs round s) < left L config pairs s
  unfolding round_step total
  round_step-left round s name rc sound on answer =
      let names = sorted_names s.jobs in
      let kept = IsSound-IsKept L config pairs distinct in
      let locks = heartbeat round.heartbeat_time s.running_jobs s.locks in
      let beaten : Sched Locks = record s { locks = locks; futures = [] } in
      let sound_beaten : IsSound config pairs s.futures beaten =
        kept.at_futures [] s.futures [] (record s { locks = locks }) (λ n. omega arith)
          (kept.at_heartbeat round.heartbeat_time s sound) in
      let listed : 1 ≤ total (future_load name) s.futures =
        ground (arith, sound.one_future name, sound.listed name, on) in
      let finalized = finalize L config pairs round s.futures beaten in
      let n = left L config pairs finalized in
      let sound_finalized =
        finalize-kept L config pairs (λ rest t. IsSound config pairs rest t) kept round s.futures
          beaten sound_beaten in
      let rest = left_at_most n _ (
        schedule-kept L config pairs (Within n) (Within-IsKept n) round names _ (
          block_all-kept L config pairs (Within n) (Within-IsKept n) names finalized
            (sound_finalized, inr (refl, tt)))) in
      omega (arith, finalize-left round s.futures beaten name rc sound_beaten listed answer, rest)

  pub round_step-at_most :
      (round : Round) (s : Sched Locks)
      → IsSound config pairs [] s
      → left L config pairs (round_step L config pairs round s) ≤ left L config pairs s
  round_step-at_most round s sound =
      let n = left L config pairs s in
      left_at_most n _ (
        round_step-kept L config pairs (Within n) (Within-IsKept n) round s (sound, inr (refl, tt)))
