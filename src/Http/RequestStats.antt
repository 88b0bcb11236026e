-- ===== src/Http/RequestStats.antt =====
-- src/http/request_stats.h: statistics by route, and the timer that records a request. The lock makes
-- each operation one step; the hash table is an association list with new keys at the end. Left
-- out is mean_us, which divides in floating point.
pub mod Table
pub mod Sums
pub mod Timer
mod Tests
use ebpf_system_monitor.Base.{
  ℕ, zero, suc, ◌+◌, ◌-◌, ◌/◌, ◌%◌, ◌^◌, min, max, Bool, true, false, ◌&&◌, Option, none, some,
  List, [], ◌∷◌, ◌==◌, if◌then◌else◌, add64, Text, text_eq,
}

pub record RouteStats : Type 0 where
  pub requests : ℕ
  pub errors : ℕ
  pub total_us : ℕ
  pub min_us : ℕ
  pub max_us : ℕ

abbrev pub no_requests : RouteStats
no_requests = record { requests = 0; errors = 0; total_us = 0; min_us = 2 ^ 64 - 1; max_us = 0 }

pub record RouteEntry : Type 0 where
  pub route : Text
  pub stats : RouteStats

abbrev pub RequestStats : Type 0
RequestStats = List RouteEntry

-- What `record` does to the entry of the route.
unfoldable pub add_request : ℕ → Bool → RouteStats → RouteStats
add_request elapsed_us ok s = record {
  requests = add64 s.requests 1;
  errors = if ok then s.errors else add64 s.errors 1;
  total_us = add64 s.total_us elapsed_us;
  min_us = min s.min_us elapsed_us;
  max_us = max s.max_us elapsed_us;
}

-- `record`, whose name is taken.
unfoldable pub record_request : Text → ℕ → Bool → RequestStats → RequestStats
record_request route elapsed_us ok [] =
    record { route = route; stats = add_request elapsed_us ok no_requests } ∷ []
record_request route elapsed_us ok (e ∷ es) =
    let rest = record_request route elapsed_us ok es in
    if text_eq e.route route
    then record e { stats = add_request elapsed_us ok e.stats } ∷ es
    else e ∷ rest

unfoldable pub snapshot : RequestStats → List RouteEntry
snapshot stats = stats

-- The loops of `total_requests` and `total_errors`, with the sum so far.
unfoldable pub sum_requests : RequestStats → ℕ → ℕ
sum_requests [] n = n
sum_requests (e ∷ es) n = sum_requests es (add64 n e.stats.requests)

unfoldable pub sum_errors : RequestStats → ℕ → ℕ
sum_errors [] n = n
sum_errors (e ∷ es) n = sum_errors es (add64 n e.stats.errors)

unfoldable pub total_requests : RequestStats → ℕ
unfolding sum_requests
total_requests stats = sum_requests stats 0

unfoldable pub total_errors : RequestStats → ℕ
unfolding sum_errors
total_errors stats = sum_errors stats 0

-- A timer; `m_start` is in nanoseconds of the steady clock. The statistics that it refers to are
-- passed along.
pub record RequestTimer : Type 0 where
  pub m_route : Text
  pub m_start : ℕ
  pub m_done : Bool

unfoldable pub start_timer : Text → ℕ → RequestTimer
start_timer route now = record { m_route = route; m_start = now; m_done = false }

-- `now` is what the clock shows in the call, not before `m_start`: the clock is steady.
unfoldable pub finish : ℕ → Bool → RequestTimer → RequestStats → RequestTimer × RequestStats
finish now ok timer stats = if timer.m_done then (timer, stats) else (
  record timer { m_done = true },
  record_request timer.m_route ((now - timer.m_start) / 1000 % 2 ^ 64) ok stats,
)

unfoldable pub destroy : ℕ → RequestTimer → RequestStats → RequestStats
unfolding finish
destroy now timer stats = (finish now false timer stats).1
