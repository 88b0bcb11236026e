-- ===== src/Http/ThreadPool/Schedule.antt =====
-- The steps of all threads in any order, with the tasks that were submitted, started and finished.
pub mod Counting
pub mod Sound
pub mod Workers
pub mod Live
pub mod Invariant
pub mod Progress
pub mod Shutdown
use ebpf_system_monitor.Base.{
  ℕ, zero, suc, ◌+◌, ◌-◌, Bool, true, false, not, ◌&&◌, Option, none, some, List, [], ◌∷◌, ◌++◌,
  ◌==◌, if◌then◌else◌,
}
use ebpf_system_monitor.Http.ThreadPool.{
  Worker, deciding, asleep, running, exited, ThreadPool, construct, push, worker_at, decide,
  complete, wake, notify_all, stop,
}

-- The pool; the calls of submit that are between the lock and `notify_one`; whether the destructor is
-- between the lock and `notify_all`; and what has happened to tasks, in order.
pub record System (A : Type 0) : Type 0 where
  pub pool : ThreadPool A
  pub one_due : ℕ
  pub all_due : Bool
  pub submitted : List A
  pub started : List A
  pub finished : List A

pub data Event (A : Type 0) : Type 0 where
  submits : A → Event A
  notifies : ℕ → Event A  -- notify_one, which wakes that worker
  notifies_nobody : Event A  -- notify_one, with nobody waiting
  decides : ℕ → Event A
  finishes : ℕ → Event A
  wakes_spuriously : ℕ → Event A
  stops : Event A
  notifies_all : Event A

module _ {A : Type 0} where
  abbrev pub start : ℕ → System A
  start thread_count = record {
    pool = construct thread_count;
    one_due = 0;
    all_due = false;
    submitted = [];
    started = [];
    finished = [];
  }

  -- One at an asleep worker, and so on: to count the workers by what they do.
  abbrev pub one_asleep : Worker A → ℕ
  one_asleep asleep = 1
  one_asleep deciding = 0
  one_asleep (running x) = 0
  one_asleep exited = 0

  abbrev pub none_asleep : List (Worker A) → Bool
  none_asleep [] = true
  none_asleep (w ∷ ws) = one_asleep w == 0 && none_asleep ws

  abbrev front : List A → List A
  front [] = []
  front (x ∷ xs) = x ∷ []

  unfoldable pub submit_step : A → Option (ThreadPool A) → System A → Option (System A)
  submit_step x none s = none
  submit_step x (some p) s =
      some (record s { pool = p; one_due = s.one_due + 1; submitted = s.submitted ++ (x ∷ []) })

  unfoldable pub notify_step : Worker A → ℕ → System A → Option (System A)
  notify_step asleep i s = some (record s { pool = wake i s.pool; one_due = s.one_due - 1 })
  notify_step deciding i s = none
  notify_step (running x) i s = none
  notify_step exited i s = none

  unfoldable pub decide_step : Worker A → ℕ → System A → Option (System A)
  decide_step deciding i s =
      some (record s { pool = decide i s.pool; started = s.started ++ front s.pool.m_tasks })
  decide_step asleep i s = none
  decide_step (running x) i s = none
  decide_step exited i s = none

  unfoldable pub finish_step : Worker A → ℕ → System A → Option (System A)
  finish_step (running x) i s =
      some (record s { pool = complete i s.pool; finished = s.finished ++ (x ∷ []) })
  finish_step deciding i s = none
  finish_step asleep i s = none
  finish_step exited i s = none

  unfoldable pub wake_step : Worker A → ℕ → System A → Option (System A)
  wake_step asleep i s = some (record s { pool = wake i s.pool })
  wake_step deciding i s = none
  wake_step (running x) i s = none
  wake_step exited i s = none

  -- The state after an event, or `none` if that cannot happen now.
  unfoldable pub step : Event A → System A → Option (System A)
  unfolding submit_step notify_step decide_step finish_step wake_step
  step (submits x) s = submit_step x (push x s.pool) s
  step (notifies i) s = if s.one_due == 0 then none else notify_step (worker_at s.pool i) i s
  step notifies_nobody s =
      if s.one_due == 0
      then none
      else if none_asleep s.pool.m_workers
      then some (record s { one_due = s.one_due - 1 })
      else none
  step (decides i) s = decide_step (worker_at s.pool i) i s
  step (finishes i) s = finish_step (worker_at s.pool i) i s
  step (wakes_spuriously i) s = wake_step (worker_at s.pool i) i s
  step stops s =
      if s.pool.m_stop then none else some (record s { pool = stop s.pool; all_due = true })
  step notifies_all s =
      if s.all_due then some (record s { pool = notify_all s.pool; all_due = false }) else none

  -- A run of events, all of which can happen.
  unfoldable pub run : List (Event A) → System A → Option (System A)
  run [] s = some s
  run (e ∷ es) s = elim (step e s) [ none ↦ none | some t ↦ run es t ]
