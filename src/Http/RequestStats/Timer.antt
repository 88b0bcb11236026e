-- ===== src/Http/RequestStats/Timer.antt =====
-- A timer records its request once.
use ebpf_system_monitor.Base.{
  ℕ, ◌-◌, ◌/◌, ◌%◌, ◌^◌, ◌≡◌, refl, Bool, true, false, List, [], ◌∷◌, Text,
}
use ebpf_system_monitor.Http.RequestStats.{
  RequestStats, RequestTimer, record_request, start_timer, finish, destroy,
}

pub record FinishCall : Type 0 where
  pub now : ℕ
  pub ok : Bool

-- The calls of `finish` in the life of a timer, and its end.
unfoldable pub live : List FinishCall → ℕ → RequestTimer → RequestStats → RequestStats
unfolding destroy
live [] end timer stats = destroy end timer stats
live (c ∷ cs) end timer stats =
    let (timer', stats') = finish c.now c.ok timer stats in live cs end timer' stats'

-- What the first call says, or the end if there is none.
abbrev pub outcome : List FinishCall → ℕ → FinishCall
outcome [] end = record { now = end; ok = false }
outcome (c ∷ cs) end = c

live_done :
    (calls : List FinishCall) (end : ℕ) (timer : RequestTimer) (stats : RequestStats)
    → live calls end (record timer { m_done = true }) stats ≡ stats
unfolding live finish
live_done [] end timer stats = refl
live_done (c ∷ cs) end timer stats = live_done cs end timer stats

-- However often a timer is finished before its end, its request is recorded once, with the time
-- and the success of the first call, or as an error at its end if there is none.
pub live_once :
    (calls : List FinishCall) (end : ℕ) (route : Text) (start : ℕ) (stats : RequestStats)
    → live calls end (start_timer route start) stats
      ≡ record_request route
          (((outcome calls end).now - start) / 1000 % 2 ^ 64)
          (outcome calls end).ok
          stats
unfolding live finish start_timer
live_once [] end route start stats = refl
live_once (c ∷ cs) end route start stats = live_done cs end (start_timer route start) _
