-- ===== src/Scheduler/Tests.antt =====
-- Runs of the scheduler on small plans.
mod Orders
use softos_sdd_orchestrator.Prelude.Strip.{
  is_space, lstrip, rstrip, strip, lower, lower_char, match_char,
}
use softos_sdd_orchestrator.Prelude.Text.{text_leb, concat}
use softos_sdd_orchestrator.Prelude.Sort.{insert_sorted, sort}
use softos_sdd_orchestrator.Table.{select_where, insert, select, update}
use softos_sdd_orchestrator.Prelude.Sets.{stripped, non_blank, dedupe, sorted_set}
use softos_sdd_orchestrator.Scheduler.Plan.{
  slashes, split_slash, area_parts, pattern_areas, hot_areas_of, inferred, inferred_all,
  semantic_locks_of, new_job, put_job, jobs_of, sorted_names, shares, has_critical_overlap,
  pairs_of, overlap_pairs, SlicePayload, Job, running, lock_wait,
}
use softos_sdd_orchestrator.Scheduler.State.{
  increase_all, decrease_all, discard, set_job, SchedulerConfig,
}
use softos_sdd_orchestrator.Scheduler.LocalLocks.{
  lock_event, sweep, sweep_events, owned_by_other, put_entry, take_locks, swept, acquire_locks,
  without_owner, release_events, release_locks, beat_entries, heartbeat_locks, no_locks,
  local_locks,
}
use softos_sdd_orchestrator.Scheduler.Loop.{
  failed_parent, waiting_parent, full_area, overlapping, gate, mark_wait, start, try_locks,
  try_start, visit, schedule, settle_failure, settle_job, finish, finalize, mark_blocked, block,
  block_all, round_step, run, Round, is_passed, is_running, find_job,
}
use softos_sdd_orchestrator.Scheduler.Whole.{
  initial, run_slice_scheduler, run_slice_scheduler-IsSound,
}
use softos_sdd_orchestrator.Scheduler.Ended.{every, loop_end, HasEnded}
use softos_sdd_orchestrator.Prelude.{
  map, String, true, false, ◌≡◌, refl, none, some, List, [], ◌∷◌, ◌==◌, ◌&&◌, not, if◌then◌else◌,
  ltb,
}
use softos_sdd_orchestrator.Prelude.Int.{ℤ, pos}
use softos_sdd_orchestrator.Prelude.Lists.{length, All, contains}
use softos_sdd_orchestrator.Scheduler.Sound.{IsSound, runs}
use softos_sdd_orchestrator.Scheduler.Apart.{overlapping_apart}
use softos_sdd_orchestrator.Prelude.{◌⊎◌, ◌||◌, inl, inr, sym, ◌∙◌, subst, eq_iff, Bool, Bool-cases}
use softos_sdd_orchestrator.Prelude.Order.{true-false}
use softos_sdd_orchestrator.Scheduler.Cycles.{IsWaiting, IsCycle}
use mathlib.Core.Option.{none-ne-some, some-injective}
use softos_sdd_orchestrator.Prelude.{ℕ, ◌<◌, ◌≤◌, arith}
use softos_sdd_orchestrator.Scheduler.SamePlan.{parents_at, IsRanked}
use softos_sdd_orchestrator.Scheduler.Ready.{has_some}
use softos_sdd_orchestrator.Scheduler.Stuck.{run_slice_scheduler-IsCycle}
use softos_sdd_orchestrator.Scheduler.Exclusive.{after, semantic_locks_exclusive}

unfoldable pub program : Unit {0}
unfolding is_space lstrip rstrip strip lower lower_char match_char text_leb concat insert_sorted
    sort select_where insert select update stripped non_blank dedupe sorted_set slashes split_slash
    area_parts pattern_areas hot_areas_of inferred inferred_all semantic_locks_of new_job put_job
    jobs_of sorted_names shares has_critical_overlap pairs_of overlap_pairs increase_all
    decrease_all discard set_job lock_event sweep sweep_events owned_by_other put_entry take_locks
    swept acquire_locks without_owner release_events release_locks beat_entries heartbeat_locks
    failed_parent waiting_parent full_area overlapping gate mark_wait start try_locks try_start
    visit schedule settle_failure settle_job finish finalize mark_blocked block block_all round_step
    run initial run_slice_scheduler every
program = tt

abbrev pub config : SchedulerConfig
config = record {
  per_repo_capacity = 2;
  per_hot_area_capacity = 2;
  lock_ttl_seconds = 60;
  max_retries_execution = 1;
}

abbrev pub slice : String → List String → List String → SlicePayload
slice name parents targets = record {
  name = name;
  repo = "api";
  depends_on = parents;
  hot_areas = "src" ∷ [];
  hot_area = "";
  owned_patterns = [];
  semantic_locks = "schema" ∷ [];
  owned_targets = targets;
}

-- A build, and a deployment that waits for it.
abbrev chain : List SlicePayload
chain = slice "build" [] [] ∷ slice "deploy" ("build" ∷ []) [] ∷ []

-- Two slices with a common target.
abbrev rivals : List SlicePayload
rivals = slice "left" [] ("db" ∷ []) ∷ slice "right" [] ("db" ∷ []) ∷ []

abbrev pub idle_round : Round
idle_round = record { heartbeat_time = 0; result = λ _. none; acquire_time = λ _. 0 }

abbrev pub done_round : String → ℤ → Round
done_round name rc = record {
  heartbeat_time = 1;
  result = λ n. if n == name then some rc else none;
  acquire_time = λ _. 1;
}

-- The build passes; the deployment is tried twice, and fails.
abbrev story : List Round
story =
    idle_round
    ∷ done_round "build" (pos 0)
    ∷ done_round "deploy" (pos 1)
    ∷ done_round "deploy" (pos 1)
    ∷ []

story_end :
    (let s = run_slice_scheduler (local_locks config) config chain no_locks story in
      ltb s.completed (length s.jobs))
    ≡ false
unfolding program
story_end = refl

-- The deployment waits twice for the build.
story_waits : map (λ w. w.0) ((after config chain story).waits) ≡ "deploy" ∷ []
unfolding program
story_waits = refl

story_letters : map (λ letter. letter.attempt) ((after config chain story).dlq) ≡ 2 ∷ []
unfolding program
story_letters = refl

loop_end_example :
    (let s = run_slice_scheduler (local_locks config) config chain no_locks story in
      (s.completed ≡ length s.jobs)
      × All HasEnded s.jobs
      × (s.any_failed ≡ not (every is_passed s.jobs)))
loop_end_example = loop_end (local_locks config) config chain no_locks story story_end

run_slice_scheduler-IsSound_example :
    IsSound config
      (overlap_pairs (jobs_of chain []) (sorted_names (jobs_of chain [])))
      []
      (run_slice_scheduler (local_locks config) config chain no_locks story)
run_slice_scheduler-IsSound_example =
    run_slice_scheduler-IsSound (local_locks config) config chain no_locks story

left_found : find_job "left" (jobs_of rivals []) ≡ some (new_job (slice "left" [] ("db" ∷ [])))
unfolding program
left_found = refl

right_found : find_job "right" (jobs_of rivals []) ≡ some (new_job (slice "right" [] ("db" ∷ [])))
unfolding program
right_found = refl

rivals_overlap :
    has_critical_overlap
      (new_job (slice "left" [] ("db" ∷ [])))
      (new_job (slice "right" [] ("db" ∷ [])))
    ≡ true
unfolding program
rivals_overlap = refl

-- The first is running, so the second waits.
rivals_running : (after config rivals (idle_round ∷ [])).running_jobs ≡ "left" ∷ []
unfolding program
rivals_running = refl

overlapping_apart_example :
    (let s = run_slice_scheduler (local_locks config) config rivals no_locks (idle_round ∷ []) in
      (runs "left" s.jobs && runs "right" s.jobs) ≡ false)
overlapping_apart_example =
    overlapping_apart (local_locks config) config rivals no_locks (idle_round ∷ []) "left" "right"
      (new_job (slice "left" [] ("db" ∷ []))) (new_job (slice "right" [] ("db" ∷ []))) left_found
      right_found rivals_overlap refl

-- Two slices that only share a semantic lock: the second waits for it.
abbrev sharers : List SlicePayload
sharers = slice "left" [] [] ∷ slice "right" [] [] ∷ []

abbrev left_running : Job
left_running = record (new_job (slice "left" [] [])) { status = running; attempt = 1 }

abbrev right_waiting : Job
right_waiting = record (new_job (slice "right" [] [])) {
  wait_reasons = lock_wait "semantic-lock:schema" ∷ [];
}

holder_found : find_job "left" ((after config sharers (idle_round ∷ [])).jobs) ≡ some left_running
unfolding program
holder_found = refl

waiter_found : find_job "right" ((after config sharers (idle_round ∷ [])).jobs) ≡ some right_waiting
unfolding program
waiter_found = refl

holder_lock : contains "schema" left_running.semantic_locks ≡ true
unfolding program
holder_lock = refl

waiter_lock : contains "schema" right_waiting.semantic_locks ≡ true
unfolding program
waiter_lock = refl

semantic_locks_exclusive_example : (is_running left_running && is_running right_waiting) ≡ false
semantic_locks_exclusive_example =
    semantic_locks_exclusive config sharers (idle_round ∷ []) "left" "right" "schema" left_running
      right_waiting holder_found waiter_found holder_lock waiter_lock refl
