-- ===== src/Http/RequestStats/Sums.antt =====
-- The sums over all routes.
use ebpf_system_monitor.Base.{
  ℕ, ◌+◌, ◌%◌, ◌^◌, ◌<◌, ◌≡◌, List, [], ◌∷◌, if◌then◌else◌, add64, arith,
}
use ebpf_system_monitor.Http.RequestStats.{
  RequestStats, add_request, record_request, sum_requests, sum_errors, total_requests, total_errors,
}
use ebpf_system_monitor.Http.RequestStats.Table.{Request, record_requests, count, failed}

abbrev all_requests : RequestStats → ℕ
all_requests [] = 0
all_requests (e ∷ es) = e.stats.requests + all_requests es

abbrev all_errors : RequestStats → ℕ
all_errors [] = 0
all_errors (e ∷ es) = e.stats.errors + all_errors es

sum_requests_lem :
    (es : RequestStats) (n : ℕ) → n < 2 ^ 64 → sum_requests es n ≡ (n + all_requests es) % 2 ^ 64
unfolding sum_requests
sum_requests_lem [] n h = omega arith
sum_requests_lem (e ∷ es) n h = omega (arith, sum_requests_lem es (add64 n e.stats.requests))

sum_errors_lem :
    (es : RequestStats) (n : ℕ) → n < 2 ^ 64 → sum_errors es n ≡ (n + all_errors es) % 2 ^ 64
unfolding sum_errors
sum_errors_lem [] n h = omega arith
sum_errors_lem (e ∷ es) n h = omega (arith, sum_errors_lem es (add64 n e.stats.errors))

all_requests-record :
    (q : Request) (es : RequestStats)
    → all_requests (record_request q.route q.elapsed_us q.ok es) % 2 ^ 64
      ≡ (all_requests es + 1) % 2 ^ 64
unfolding record_request add_request
all_requests-record q [] = omega arith
all_requests-record q (e ∷ es) = ground (arith, all_requests-record q es)

all_errors-record :
    (q : Request) (es : RequestStats)
    → all_errors (record_request q.route q.elapsed_us q.ok es) % 2 ^ 64
      ≡ (all_errors es + (if q.ok then 0 else 1)) % 2 ^ 64
unfolding record_request add_request
all_errors-record q [] = ground arith
all_errors-record q (e ∷ es) = ground (arith, all_errors-record q es)

all_after :
    (qs : List Request) (es : RequestStats)
    → (all_requests (record_requests qs es) % 2 ^ 64 ≡ (all_requests es + count qs) % 2 ^ 64)
      × (all_errors (record_requests qs es) % 2 ^ 64 ≡ (all_errors es + failed qs) % 2 ^ 64)
unfolding record_requests
all_after [] es = (omega arith, omega arith)
all_after (q ∷ qs) es =
    let (r, e) = all_after qs (record_request q.route q.elapsed_us q.ok es) in
    (omega (arith, r, all_requests-record q es), ground (arith, e, all_errors-record q es))

-- total_requests is the number of all requests and total_errors of those that failed, modulo
-- 2 ^ 64, over whatever routes they are spread.
pub totals_lem :
    (qs : List Request)
    → (total_requests (record_requests qs []) ≡ count qs % 2 ^ 64)
      × (total_errors (record_requests qs []) ≡ failed qs % 2 ^ 64)
unfolding total_requests total_errors
totals_lem qs =
    let (r, e) = all_after qs [] in
    (
      omega (arith, r, sum_requests_lem (record_requests qs []) 0),
      omega (arith, e, sum_errors_lem (record_requests qs []) 0),
    )
