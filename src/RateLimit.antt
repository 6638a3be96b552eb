-- ===== src/RateLimit.antt =====
-- gateway/app/store.py, `check_rate_limit`: requests counted in fixed windows. SQLite and
-- Postgres get the same two statements. The reading of
-- the clock in seconds and its text are arguments.
pub mod Budget
pub mod Tests
use softos_sdd_orchestrator.Prelude.{
  ℕ, ◌+◌, ◌-◌, ◌%◌, String, Bool, Option, none, some, List, [], ◌∷◌, ◌==◌, ◌&&◌, nat_eq, leb,
  if◌then◌else◌,
}
use softos_sdd_orchestrator.Prelude.Int.{ℤ, at_least_one}
use softos_sdd_orchestrator.Prelude.Text.{or_default}
use softos_sdd_orchestrator.Prelude.Strip.{strip}

-- The columns of the UNIQUE constraint of `rate_limits`.
pub record Window : Type 0 where
  pub source : String
  pub endpoint : String
  pub actor_key : String
  pub window_start : ℕ

-- A row of `rate_limits`.
pub record Rate : Type 0 where
  pub window : Window
  pub request_count : ℕ
  pub updated_at : ℕ

pub record Request : Type 0 where
  pub source : String
  pub endpoint : String
  pub actor_key : String
  pub window_seconds : ℤ
  pub max_requests : ℤ
  pub epoch_now : ℕ
  pub timestamp : ℕ

pub record Verdict : Type 0 where
  pub allowed : Bool
  pub count : ℕ
  pub max_requests : ℕ
  pub window_start : ℕ

unfoldable pub same_window : Window → Window → Bool
same_window a b =
    a.source == b.source
    && a.endpoint == b.endpoint
    && a.actor_key == b.actor_key
    && nat_eq a.window_start b.window_start

-- INSERT ... ON CONFLICT DO UPDATE SET request_count = request_count + 1
unfoldable pub count_request : Window → ℕ → List Rate → List Rate
count_request window timestamp [] =
    record { window = window; request_count = 1; updated_at = timestamp } ∷ []
count_request window timestamp (rate ∷ rates) =
    let rest = count_request window timestamp rates in
    if same_window rate.window window
    then record rate { request_count = rate.request_count + 1; updated_at = timestamp } ∷ rates
    else rate ∷ rest

-- SELECT request_count ..., and 0 if there is no row
unfoldable pub requests_in : Window → List Rate → ℕ
requests_in window [] = 0
requests_in window (rate ∷ rates) =
    let rest = requests_in window rates in
    if same_window rate.window window then rate.request_count else rest

-- The window of a request, with the normalised actor.
unfoldable pub window_of : Request → Window
window_of request = record {
  source = request.source;
  endpoint = request.endpoint;
  actor_key = or_default (strip (or_default request.actor_key "anonymous")) "anonymous";
  window_start = request.epoch_now - (request.epoch_now % at_least_one request.window_seconds);
}

unfoldable pub check_rate_limit : Request → List Rate → Verdict × List Rate
unfolding window_of
check_rate_limit request rates =
    let window = window_of request in
    let safe_max = at_least_one request.max_requests in
    let rates' = count_request window request.timestamp rates in
    let count = requests_in window rates' in
    (
      record {
        allowed = leb count safe_max;
        count = count;
        max_requests = safe_max;
        window_start = window.window_start;
      },
      rates',
    )
