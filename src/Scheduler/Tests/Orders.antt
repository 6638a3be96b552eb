-- ===== src/Scheduler/Tests/Orders.antt =====
-- Runs of the scheduler on plans with a cycle and without one.
use softos_sdd_orchestrator.Scheduler.Plan.{jobs_of, sorted_names, overlap_pairs, SlicePayload}
use softos_sdd_orchestrator.Scheduler.LocalLocks.{no_locks, local_locks}
use softos_sdd_orchestrator.Scheduler.Loop.{round_step, Round}
use softos_sdd_orchestrator.Scheduler.Whole.{run_slice_scheduler}
use softos_sdd_orchestrator.Prelude.{
  String, true, false, ◌≡◌, refl, some, List, [], ◌∷◌, ◌==◌, if◌then◌else◌, ltb,
}
use softos_sdd_orchestrator.Prelude.Int.{pos}
use softos_sdd_orchestrator.Prelude.Lists.{length, contains}
use softos_sdd_orchestrator.Prelude.{◌⊎◌, ◌||◌, inl, inr, sym, ◌∙◌, subst, eq_iff, Bool, Bool-cases}
use softos_sdd_orchestrator.Prelude.Order.{true-false}
use softos_sdd_orchestrator.Scheduler.Cycles.{IsWaiting, IsCycle}
use mathlib.Core.Option.{none-ne-some, some-injective}
use softos_sdd_orchestrator.Prelude.{ℕ, ◌<◌, arith}
use softos_sdd_orchestrator.Scheduler.SamePlan.{parents_at, IsRanked}
use softos_sdd_orchestrator.Prelude.{◌*◌, ◌+◌, not}
use softos_sdd_orchestrator.Prelude.Lists.{All}
use softos_sdd_orchestrator.Scheduler.Plan.{overlap_pairs, sorted_names, jobs_of}
use softos_sdd_orchestrator.Scheduler.State.{SchedulerConfig}
use softos_sdd_orchestrator.Scheduler.Loop.{is_passed, Round}
use softos_sdd_orchestrator.Scheduler.Whole.{initial}
use softos_sdd_orchestrator.Scheduler.Ended.{HasEnded, every}
use softos_sdd_orchestrator.Scheduler.LocalLocks.{LocalTable}
use softos_sdd_orchestrator.Scheduler.State.{Sched}
use softos_sdd_orchestrator.Scheduler.Ends.{
  Answered, over, timeout, answer, run_slice_scheduler_ends,
}
use softos_sdd_orchestrator.Scheduler.Stuck.{run_slice_scheduler-IsCycle}
use softos_sdd_orchestrator.Scheduler.Tests.{program, config, slice, idle_round, done_round}

-- Two slices that depend on each other.
abbrev ring : List SlicePayload
ring = slice "a" ("b" ∷ []) [] ∷ slice "b" ("a" ∷ []) [] ∷ []

abbrev in_ring : String → Bool
in_ring name = "a" == name || "b" == name

of_pair : (name : String) → in_ring name ≡ true → ("a" ≡ name) ⊎ ("b" ≡ name)
of_pair name h = elim (Bool-cases ("a" == name)) [
  | inl a ↦ inl ((eq_iff "a" name).0 a)
  | inr other ↦ inr ((eq_iff "b" name).0 (rw other at h))
]

only :
    (parent : String)
    → in_ring parent ≡ true
    → (p : String) → contains p (parent ∷ []) ≡ true
    → in_ring p ≡ false
    → ⊥
only parent in_set p held out = elim (Bool-cases (parent == p)) [
  | inl same ↦
      true-false (sym (subst (λ n. in_ring n ≡ true) ((eq_iff parent p).0 same) in_set) ∙ out)
  | inr other ↦ true-false (sym (rw other at held))
]

ring_waits : IsCycle in_ring (jobs_of ring [])
unfolding program
ring_waits name h = elim (of_pair name h) [
  | inl a ↦ subst (IsWaiting in_ring (jobs_of ring [])) a (record {
    job = _;
    found = refl;
    idle = refl;
    parent = "b";
    is_parent = refl;
    in_set = refl;
    closed = λ p held out. absurd (only "b" refl p held out);
  })
  | inr b ↦ subst (IsWaiting in_ring (jobs_of ring [])) b (record {
    job = _;
    found = refl;
    idle = refl;
    parent = "a";
    is_parent = refl;
    in_set = refl;
    closed = λ p held out. absurd (only "a" refl p held out);
  })
]

run_slice_scheduler-IsCycle_example :
    (let s =
        run_slice_scheduler
          (local_locks config)
          config
          ring
          no_locks
          (idle_round ∷ idle_round ∷ []) in
      IsCycle in_ring s.jobs × (ltb s.completed (length s.jobs) ≡ true))
run_slice_scheduler-IsCycle_example =
    run_slice_scheduler-IsCycle (local_locks config) config ring no_locks
      (idle_round ∷ idle_round ∷ []) in_ring "a" refl ring_waits

abbrev pair_rank : String → ℕ
pair_rank name = if "b" == name then 1 else 0

only_name :
    (parent p : String) (parents : List String)
    → parents ≡ parent ∷ []
    → contains p parents ≡ true
    → parent ≡ p
only_name parent p parents e held = elim (Bool-cases (parent == p)) [
  | inl same ↦ (eq_iff parent p).0 same
  | inr other ↦ absurd (true-false (sym (rw other at (rw e at held))))
]

abbrev one_try : SchedulerConfig
one_try = record config { max_retries_execution = 0 }

-- A deployment before its build in the order of the plan; with one attempt each.
abbrev pair : List SlicePayload
pair = slice "b" ("c" ∷ []) [] ∷ slice "c" [] [] ∷ []

of_pair_plan :
    (name : String) (parents : List String)
    → parents_at name (jobs_of pair []) ≡ some parents
    → (parents ≡ []) ⊎ (("b" ≡ name) × (parents ≡ "c" ∷ []))
unfolding program
of_pair_plan name parents h = elim (Bool-cases ("b" == name)) [
  | inl b ↦ inr ((eq_iff "b" name).0 b, sym (some-injective _ parents (rw b at h)))
  | inr not_b ↦ elim (Bool-cases ("c" == name)) [
    | inl c ↦ inl (sym (some-injective _ parents (rw c at (rw not_b at h))))
    | inr not_c ↦ absurd (none-ne-some parents (rw not_c at (rw not_b at h)))
  ]
]

pair-IsRanked : IsRanked pair_rank (jobs_of pair [])
pair-IsRanked name parent parents grandparents here held there =
    elim (of_pair_plan name parents here) [
      | inl first ↦ absurd (true-false (sym (rw first at held)))
      | inr (b, e) ↦
          subst (λ p. pair_rank p < pair_rank name) (only_name "c" parent parents e held)
            (subst (λ n. pair_rank "c" < pair_rank n) b (omega arith))
    ]

abbrev pair_pairs : List (String × String)
pair_pairs = overlap_pairs (jobs_of pair []) (sorted_names (jobs_of pair []))

abbrev pair_step : Round → Sched LocalTable → Sched LocalTable
pair_step = round_step (local_locks one_try) one_try pair_pairs

abbrev PairAnswered : ℕ → List Round → Sched LocalTable → Type 0
PairAnswered = Answered (local_locks one_try) one_try pair_pairs

-- The build starts, a round times out, it fails, and the deployment is blocked; then nothing runs.
abbrev pair_start : Sched LocalTable
pair_start = initial (local_locks one_try) (jobs_of pair []) no_locks

abbrev pair_started : Sched LocalTable
pair_started = pair_step idle_round (pair_step idle_round pair_start)

abbrev pair_failed : Sched LocalTable
pair_failed = pair_step (done_round "c" (pos 1)) pair_started

abbrev second_idle : Sched LocalTable
second_idle = pair_step idle_round pair_failed

abbrev third_idle : Sched LocalTable
third_idle = pair_step idle_round second_idle

abbrev fourth_idle : Sched LocalTable
fourth_idle = pair_step idle_round third_idle

abbrev fifth_idle : Sched LocalTable
fifth_idle = pair_step idle_round fourth_idle

start_quiet : pair_start.running_jobs ≡ []
unfolding program
start_quiet = refl

build_runs : contains "c" pair_started.running_jobs ≡ true
unfolding program
build_runs = refl

first_idle_quiet : pair_failed.running_jobs ≡ []
unfolding program
first_idle_quiet = refl

second_idle_quiet : second_idle.running_jobs ≡ []
unfolding program
second_idle_quiet = refl

third_idle_quiet : third_idle.running_jobs ≡ []
unfolding program
third_idle_quiet = refl

fourth_idle_quiet : fourth_idle.running_jobs ≡ []
unfolding program
fourth_idle_quiet = refl

fifth_idle_quiet : fifth_idle.running_jobs ≡ []
unfolding program
fifth_idle_quiet = refl

last_answered : PairAnswered 3 (idle_round ∷ idle_round ∷ idle_round ∷ []) third_idle
last_answered = answer 2 idle_round _ third_idle (inl third_idle_quiet) (
    answer 1 idle_round _ fourth_idle (inl fourth_idle_quiet)
      (answer 0 idle_round _ fifth_idle (inl fifth_idle_quiet) (over _)))

failed_answered :
    PairAnswered 5 (idle_round ∷ idle_round ∷ idle_round ∷ idle_round ∷ idle_round ∷ []) pair_failed
failed_answered =
    answer 4 idle_round _ pair_failed (inl first_idle_quiet)
      (answer 3 idle_round _ second_idle (inl second_idle_quiet) last_answered)

abbrev pair_rounds : List Round
pair_rounds =
    idle_round
    ∷ idle_round
    ∷ done_round "c" (pos 1)
    ∷ idle_round
    ∷ idle_round
    ∷ idle_round
    ∷ idle_round
    ∷ idle_round
    ∷ []

pair_answered : PairAnswered 7 pair_rounds pair_start
pair_answered = answer 6 idle_round _ pair_start (inl start_quiet) (
    timeout 6 idle_round _ (pair_step idle_round pair_start) (
      answer 5 (done_round "c" (pos 1)) _ pair_started (inr ("c", (pos 1, build_runs, refl)))
        failed_answered))

pair_small : length (jobs_of pair []) * (2 * one_try.max_retries_execution + 3) < 7
unfolding program
pair_small = omega arith

run_slice_scheduler_ends_example :
    (let s = run_slice_scheduler (local_locks one_try) one_try pair no_locks pair_rounds in
      (s.completed ≡ length s.jobs)
      × All HasEnded s.jobs
      × (s.any_failed ≡ not (every is_passed s.jobs)))
run_slice_scheduler_ends_example =
    run_slice_scheduler_ends one_try pair pair_rounds pair_rank 7 (omega arith) (omega arith)
      pair-IsRanked pair_answered pair_small
