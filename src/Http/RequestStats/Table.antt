-- ===== src/Http/RequestStats/Table.antt =====
-- What the statistics hold after any requests.
use ebpf_system_monitor.Base.{
  text_eq, ℕ, ◌+◌, ◌-◌, ◌%◌, ◌^◌, min, max, ◌≡◌, refl, ◌∙◌, ap, inl, inr, Bool, true, Option, none,
  some, List, [], ◌∷◌, ◌==◌, if◌then◌else◌, arith, Bool-cases, Text,
}
use ebpf_system_monitor.Http.RequestStats.{
  RouteStats, no_requests, RequestStats, add_request, record_request,
}

text_eq_sound : (s t : Text) → text_eq s t ≡ true → s ≡ t
text_eq_sound [] [] h = refl
text_eq_sound [] (c ∷ cs) h = cc
text_eq_sound (b ∷ bs) [] h = cc
text_eq_sound (b ∷ bs) (c ∷ cs) h = ground (arith, text_eq_sound bs cs)

text_eq_self : (s : Text) → text_eq s s ≡ true
text_eq_self [] = refl
text_eq_self (c ∷ cs) = ground (arith, text_eq_self cs)

-- One finished request.
pub record Request : Type 0 where
  pub route : Text
  pub elapsed_us : ℕ
  pub ok : Bool

unfoldable pub record_requests : List Request → RequestStats → RequestStats
record_requests [] stats = stats
record_requests (q ∷ qs) stats = record_requests qs (record_request q.route q.elapsed_us q.ok stats)

abbrev pub stats_of : Text → RequestStats → Option RouteStats
stats_of r [] = none
stats_of r (e ∷ es) = if text_eq e.route r then some e.stats else stats_of r es

abbrev pub of_route : Text → List Request → List Request
of_route r [] = []
of_route r (q ∷ qs) = if text_eq q.route r then q ∷ of_route r qs else of_route r qs

abbrev pub count : List Request → ℕ
count [] = 0
count (q ∷ qs) = 1 + count qs

abbrev pub failed : List Request → ℕ
failed [] = 0
failed (q ∷ qs) = (if q.ok then 0 else 1) + failed qs

abbrev pub sum_us : List Request → ℕ
sum_us [] = 0
sum_us (q ∷ qs) = q.elapsed_us + sum_us qs

abbrev pub least_us : ℕ → List Request → ℕ
least_us m [] = m
least_us m (q ∷ qs) = least_us (min m q.elapsed_us) qs

abbrev pub greatest_us : ℕ → List Request → ℕ
greatest_us m [] = m
greatest_us m (q ∷ qs) = greatest_us (max m q.elapsed_us) qs

-- The statistics that the requests of a route call for.
abbrev pub summary : List Request → Option RouteStats
summary [] = none
summary (q ∷ qs) = some (record {
  requests = count (q ∷ qs) % 2 ^ 64;
  errors = failed (q ∷ qs) % 2 ^ 64;
  total_us = sum_us (q ∷ qs) % 2 ^ 64;
  min_us = least_us (2 ^ 64 - 1) (q ∷ qs);
  max_us = greatest_us 0 (q ∷ qs);
})

abbrev or_none : Option RouteStats → RouteStats
or_none none = no_requests
or_none (some s) = s

abbrev extended : Option RouteStats → List Request → Option RouteStats
extended o [] = o
extended o (q ∷ qs) = extended (some (add_request q.elapsed_us q.ok (or_none o))) qs

stats_of-record_request :
    (r : Text) (q : Request) (stats : RequestStats)
    → stats_of r (record_request q.route q.elapsed_us q.ok stats) ≡ (
        if text_eq q.route r
        then some (add_request q.elapsed_us q.ok (or_none (stats_of r stats)))
        else stats_of r stats)
unfolding record_request
stats_of-record_request r q [] = refl
stats_of-record_request r q (e ∷ es) = ground (
  arith,
  stats_of-record_request r q es,
  text_eq_sound e.route q.route,
  text_eq_sound e.route r,
  text_eq_sound q.route r,
  text_eq_self r,
)

stats_of-record_requests :
    (r : Text) (qs : List Request) (stats : RequestStats)
    → stats_of r (record_requests qs stats) ≡ extended (stats_of r stats) (of_route r qs)
unfolding record_requests
stats_of-record_requests r [] stats = refl
stats_of-record_requests r (q ∷ qs) stats =
    stats_of-record_requests r qs (record_request q.route q.elapsed_us q.ok stats)
    ∙ ap (λ o. extended o (of_route r qs)) (stats_of-record_request r q stats)
    ∙ elim (Bool-cases (text_eq q.route r)) [ inl here ↦ rw here | inr elsewhere ↦ rw elsewhere ]

extended_lem :
    (s : RouteStats) (q : Request) (qs : List Request)
    → extended (some s) (q ∷ qs)
      ≡ some (record {
        requests = (s.requests + count (q ∷ qs)) % 2 ^ 64;
        errors = (if failed (q ∷ qs) == 0 then s.errors else (s.errors + failed (q ∷ qs)) % 2 ^ 64);
        total_us = (s.total_us + sum_us (q ∷ qs)) % 2 ^ 64;
        min_us = least_us s.min_us (q ∷ qs);
        max_us = greatest_us s.max_us (q ∷ qs);
      })
unfolding add_request
extended_lem s q [] = ground arith
extended_lem s q (q' ∷ qs) = ground (arith, extended_lem (add_request q.elapsed_us q.ok s) q' qs)

-- From empty statistics, the entry of each route is what its own requests call for: none if it has
-- none; otherwise their number, the number of those that failed and the sum of their times, modulo
-- 2 ^ 64, and the least and the greatest of their times, where the least is that of a 64-bit
-- number.
pub record_requests-summary :
    (r : Text) (qs : List Request) → stats_of r (record_requests qs []) ≡ summary (of_route r qs)
record_requests-summary r qs = stats_of-record_requests r qs [] ∙ summed (of_route r qs)
  where
    summed : (qs : List Request) → extended none qs ≡ summary qs
    summed [] = refl
    summed (q ∷ qs) = ground (arith, extended_lem no_requests q qs)
