-- ===== src/Http/ThreadPool/Tests.antt =====
-- Tests of the thread pool, and the theorems at concrete schedules.
use mathlib.Core.List.{Perm}
use ebpf_system_monitor.Base.{
  ℕ, ◌<◌, ◌≤◌, ◌%◌, ◌^◌, ◌≡◌, refl, true, false, none, some, List, [], ◌∷◌, length,
}
use ebpf_system_monitor.Http.ThreadPool.{
  asleep, running, exited, construct, push, decide, complete, wake, notify_all, stop, size,
}
use ebpf_system_monitor.Http.ThreadPool.Schedule.{
  System, Event, submits, notifies, notifies_nobody, decides, finishes, stops, notifies_all, start,
  step, run,
}
use ebpf_system_monitor.Http.ThreadPool.Schedule.Invariant.{IsSound, gone, run-IsSound, drained}
use ebpf_system_monitor.Http.ThreadPool.Schedule.Progress.{CanStep}
use ebpf_system_monitor.Http.ThreadPool.Schedule.Shutdown.{measure, shutdown_ends}

-- Two workers go to sleep; two tasks come, and one notification is still due.
abbrev busy_events : List (Event ℕ)
busy_events = decides 0 ∷ decides 1 ∷ submits 7 ∷ submits 8 ∷ notifies 1 ∷ decides 1 ∷ []

abbrev busy : System ℕ
busy = record {
  pool = record {
    m_tasks = 8 ∷ [];
    m_workers = asleep ∷ running 7 ∷ [];
    m_stop = false;
    m_pending = 1;
    m_completed = 0;
  };
  one_due = 1;
  all_due = false;
  submitted = 7 ∷ 8 ∷ [];
  started = 7 ∷ [];
  finished = [];
}

busy_reached : run busy_events (start 2) ≡ some busy
unfolding run step construct push decide wake
busy_reached = refl

-- Then the destructor begins, and the workers finish.
abbrev stopping : System ℕ
stopping = record busy { pool = record (busy.pool) { m_stop = true }; all_due = true }

abbrev ending : List (Event ℕ)
ending =
    notifies_all
    ∷ decides 0
    ∷ finishes 1
    ∷ decides 1
    ∷ finishes 0
    ∷ decides 0
    ∷ notifies_nobody
    ∷ []

abbrev ended : System ℕ
ended = record {
  pool = record {
    m_tasks = [];
    m_workers = exited ∷ exited ∷ [];
    m_stop = true;
    m_pending = 0;
    m_completed = 2;
  };
  one_due = 0;
  all_due = false;
  submitted = 7 ∷ 8 ∷ [];
  started = 7 ∷ 8 ∷ [];
  finished = 7 ∷ 8 ∷ [];
}

abbrev stop_events : List (Event ℕ)
stop_events = decides 0 ∷ decides 1 ∷ submits 7 ∷ submits 8 ∷ notifies 1 ∷ decides 1 ∷ stops ∷ []

stopping_reached : run stop_events (start 2) ≡ some stopping
unfolding run step construct push decide wake stop
stopping_reached = refl

ended_after : run ending stopping ≡ some ended
unfolding run step decide complete notify_all
ended_after = refl

abbrev all_events : List (Event ℕ)
all_events =
    decides 0
    ∷ decides 1
    ∷ submits 7
    ∷ submits 8
    ∷ notifies 1
    ∷ decides 1
    ∷ stops
    ∷ notifies_all
    ∷ decides 0
    ∷ finishes 1
    ∷ decides 1
    ∷ finishes 0
    ∷ decides 0
    ∷ notifies_nobody
    ∷ []

ended_reached : run all_events (start 2) ≡ some ended
unfolding run step construct push decide wake stop complete notify_all
ended_reached = refl

one_worker_at_least : size (construct {A = ℕ} 0) ≡ 1
unfolding size construct
one_worker_at_least = refl

run-IsSound_example : IsSound busy
run-IsSound_example = run-IsSound 2 busy_events busy busy_reached

drained_example :
    Perm ended.submitted ended.finished
    × (ended.pool.m_completed ≡ length ended.submitted % 2 ^ 64)
    × (ended.pool.m_tasks ≡ [])
    × (push 9 ended.pool ≡ none)
drained_example = drained 2 all_events ended 9 ended_reached refl

shutdown_ends_example :
    (length ending ≤ measure stopping) × (gone ended < length ended.pool.m_workers → CanStep ended)
shutdown_ends_example =
    shutdown_ends 2 stop_events ending stopping ended stopping_reached refl
      (refl, (refl, (refl, (refl, (refl, (refl, (refl, tt))))))) ended_after
