-- ===== src/RateLimit/Budget.antt =====
-- The requests that `check_rate_limit` allows in a window, over a sequence of requests.
use softos_sdd_orchestrator.Prelude.{
  ℕ, ◌+◌, ◌-◌, ◌≤◌, true, ◌≡◌, refl, List, [], ◌∷◌, arith, eq_iff, ◌&&◌, nat_eq, if◌then◌else◌,
}
use softos_sdd_orchestrator.Prelude.Int.{at_least_one}
use softos_sdd_orchestrator.RateLimit.{
  Window, Rate, Request, same_window, count_request, requests_in, window_of, check_rate_limit,
}

same_window_refl : (w : Window) → same_window w w ≡ true
unfolding same_window
same_window_refl w =
    ground (
      arith,
      eq_iff w.source w.source,
      eq_iff w.endpoint w.endpoint,
      eq_iff w.actor_key w.actor_key,
    )

-- Windows that are the same as one are the same.
same_window_join : (a b c : Window) → same_window a b ≡ true → same_window a c ≡ same_window b c
unfolding same_window
same_window_join a b c h =
    ground (
      arith,
      eq_iff a.source b.source,
      eq_iff a.endpoint b.endpoint,
      eq_iff a.actor_key b.actor_key,
    )

same_window_sym : (a b : Window) → same_window a b ≡ same_window b a
unfolding same_window
same_window_sym a b = ground (
  arith,
  eq_iff a.source b.source,
  eq_iff a.endpoint b.endpoint,
  eq_iff a.actor_key b.actor_key,
  eq_iff b.source a.source,
  eq_iff b.endpoint a.endpoint,
  eq_iff b.actor_key a.actor_key,
)

requests_in-count_request :
    (window other : Window) (timestamp : ℕ) (rates : List Rate)
    → requests_in other (count_request window timestamp rates)
      ≡ (if same_window window other then requests_in other rates + 1 else requests_in other rates)
unfolding requests_in count_request
requests_in-count_request window other timestamp [] = ground arith
requests_in-count_request window other timestamp (rate ∷ rates) = ground (
  arith,
  requests_in-count_request window other timestamp rates,
  same_window_join rate.window window other,
  same_window_join window other rate.window,
  same_window_sym rate.window window,
  same_window_sym rate.window other,
)

requests_in-same :
    (a b : Window) (rates : List Rate)
    → same_window a b ≡ true
    → requests_in a rates ≡ requests_in b rates
unfolding requests_in
requests_in-same a b [] h = refl
requests_in-same a b (rate ∷ rates) h = ground (
  arith,
  requests_in-same a b rates h,
  same_window_sym rate.window a,
  same_window_sym rate.window b,
  same_window_join a b rate.window h,
)

-- How many requests of a window with this limit are allowed in a sequence of requests.
unfoldable pub allowed_in : Window → ℕ → List Request → List Rate → ℕ
allowed_in window limit [] rates = 0
allowed_in window limit (request ∷ requests) rates =
    let rest = allowed_in window limit requests ((check_rate_limit request rates).1) in
    (if same_window (window_of request) window
        && nat_eq (at_least_one request.max_requests) limit
        && (check_rate_limit request rates).0.allowed
      then 1
      else 0)
    + rest

-- In any sequence of requests, those with the same source, endpoint, actor and window and the same
-- limit are allowed at most as often as the limit is above the requests counted in the window
-- before, whatever other requests come between.
pub allowed_within :
    (window : Window) (limit : ℕ) (requests : List Request) (rates : List Rate)
    → allowed_in window limit requests rates ≤ limit - requests_in window rates
unfolding allowed_in check_rate_limit
allowed_within window limit [] rates = omega arith
allowed_within window limit (request ∷ requests) rates =
    let own = window_of request in
    let rates' = count_request own request.timestamp rates in
    ground (
      arith,
      allowed_within window limit requests rates',
      requests_in-count_request own window request.timestamp rates,
      requests_in-count_request own own request.timestamp rates,
      same_window_refl own,
      requests_in-same own window rates,
    )
