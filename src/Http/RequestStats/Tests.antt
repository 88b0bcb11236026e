-- ===== src/Http/RequestStats/Tests.antt =====
-- Tests of the request statistics, and the theorems at concrete requests.
use ebpf_system_monitor.Base.{◌≡◌, refl, true, false, some, List, [], ◌∷◌, Text}
use ebpf_system_monitor.Http.RequestStats.{record_request, add_request}
use ebpf_system_monitor.Http.RequestStats.Table.{
  Request, record_requests, stats_of, of_route, summary, record_requests-summary,
}
use ebpf_system_monitor.Http.RequestStats.Timer.{FinishCall}

-- The routes "/a" and "/b".
abbrev route_a : Text
route_a = 47 ∷ 97 ∷ []

abbrev route_b : Text
route_b = 47 ∷ 98 ∷ []

abbrev requests : List Request
requests =
    record { route = route_a; elapsed_us = 100; ok = true }
    ∷ record { route = route_b; elapsed_us = 7; ok = true }
    ∷ record { route = route_a; elapsed_us = 50; ok = false }
    ∷ []

route_a_stats :
    stats_of route_a (record_requests requests [])
    ≡ some (record { requests = 2; errors = 1; total_us = 150; min_us = 50; max_us = 100 })
unfolding record_requests record_request add_request
route_a_stats = refl

record_requests-summary_example :
    stats_of route_a (record_requests requests []) ≡ summary (of_route route_a requests)
record_requests-summary_example = record_requests-summary route_a requests

abbrev calls : List FinishCall
calls = record { now = 5000; ok = true } ∷ record { now = 9000; ok = false } ∷ []
