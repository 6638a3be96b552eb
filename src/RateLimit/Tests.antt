-- ===== src/RateLimit/Tests.antt =====
-- Requests in a window of a minute, and the bound at a concrete sequence.
use softos_sdd_orchestrator.Prelude.{ℕ, ◌-◌, ◌≤◌, ◌≡◌, refl, List, [], ◌∷◌}
use softos_sdd_orchestrator.Prelude.Int.{pos, at_least_one}
use softos_sdd_orchestrator.Prelude.Strip.{is_space, lstrip, rstrip, strip}
use softos_sdd_orchestrator.RateLimit.{
  Window, Request, same_window, count_request, requests_in, window_of, check_rate_limit,
}
use softos_sdd_orchestrator.RateLimit.Budget.{allowed_in, allowed_within}

program : Unit {0}
unfolding at_least_one is_space lstrip rstrip strip same_window count_request requests_in window_of
    check_rate_limit allowed_in
program = tt

abbrev at : ℕ → Request
at now = record {
  source = "slack";
  endpoint = "/intents";
  actor_key = " ann ";
  window_seconds = pos 60;
  max_requests = pos 2;
  epoch_now = now;
  timestamp = now;
}

abbrev minute : Window
minute = record { source = "slack"; endpoint = "/intents"; actor_key = "ann"; window_start = 120 }

-- The third request of the minute is refused; the next minute has its own count.
abbrev requests : List Request
requests = at 121 ∷ at 130 ∷ at 179 ∷ at 180 ∷ []

two_allowed : allowed_in minute 2 requests [] ≡ 2
unfolding program
two_allowed = refl

allowed_within_example : allowed_in minute 2 requests [] ≤ 2 - requests_in minute []
allowed_within_example = allowed_within minute 2 requests []
