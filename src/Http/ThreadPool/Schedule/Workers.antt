-- ===== src/Http/ThreadPool/Schedule/Workers.antt =====
-- Which workers are awake, and what the step of one worker does to them.
use ebpf_system_monitor.Base.{
  ℕ, zero, suc, ◌+◌, ◌-◌, ◌<◌, ◌≤◌, ◌≡◌, refl, ◌∙◌, ap, Bool, true, false, List, [], ◌∷◌, ◌++◌,
  ◌==◌, arith, length, length-set, length-replicate, set, if◌then◌else◌, replicate,
}
use ebpf_system_monitor.Http.ThreadPool.{
  Worker, deciding, asleep, running, exited, construct, worker_at, set_worker, decide_on, decide,
  complete, wake, stop,
}
use ebpf_system_monitor.Http.ThreadPool.Schedule.{
  System, start, front, one_asleep, notify_step, decide_step, finish_step, wake_step,
}
use ebpf_system_monitor.Http.ThreadPool.Schedule.Counting.{
  one_active, one_exited, sum_by, sum_by-set, in_range,
}
use ebpf_system_monitor.Http.ThreadPool.Schedule.Sound.{After}

module _ {A : Type 0} where
  abbrev pub sleepers : System A → ℕ
  sleepers s = sum_by one_asleep s.pool.m_workers

  abbrev pub actives : System A → ℕ
  actives s = sum_by one_active s.pool.m_workers

  abbrev pub gone : System A → ℕ
  gone s = sum_by one_exited s.pool.m_workers

-- There is a worker. None returns before the destructor has set the flag, nor while tasks wait. While
-- tasks wait, a worker is awake or a notification is due. After the destructor's notification
-- nobody is asleep.
pub record IsLive {A : Type 0} (s : System A) : Type 0 where
  pub some_worker : 0 < length s.pool.m_workers
  pub none_gone : s.pool.m_stop ≡ false → gone s ≡ 0
  pub gone_empty : 0 < gone s → length s.pool.m_tasks ≡ 0
  pub awake : 0 < length s.pool.m_tasks → 0 < s.one_due + actives s
  pub shut : s.pool.m_stop ≡ true → s.all_due ≡ false → sleepers s ≡ 0

all_deciding :
    (A : Type 0) (n : ℕ)
    → (sum_by {A = A} one_asleep (replicate n deciding) ≡ 0)
      × (sum_by {A = A} one_exited (replicate n deciding) ≡ 0)
all_deciding A zero = (refl, refl)
all_deciding A (suc n) = let (a, b) = all_deciding A n in (omega arith, omega arith)

module _ {A : Type 0} where
  pub start-IsLive : (n : ℕ) → IsLive {A = A} (start n)
  unfolding construct
  start-IsLive n =
      let (a, b) = all_deciding A (if n == 0 then 1 else n) in
      record {
        some_worker =
            ground (arith, length-replicate {A = Worker A} (if n == 0 then 1 else n) deciding);
        none_gone = λ _. b;
        gone_empty = λ _. refl;
        awake = λ h. absurd (omega arith);
        shut = λ _ _. a;
      }

  -- How the counts change when a worker that has not returned moves from `w` to `w'`.
  moved :
      (s : System A) (i : ℕ) (w w' : Worker A)
      → worker_at s.pool i ≡ w
      → one_exited w ≡ 0
      → (sum_by one_asleep (set s.pool.m_workers i w') + one_asleep w ≡ sleepers s + one_asleep w')
        × (sum_by one_active (set s.pool.m_workers i w') + one_active w ≡ actives s + one_active w')
        × (sum_by one_exited (set s.pool.m_workers i w') ≡ gone s + one_exited w')
        × (length (set s.pool.m_workers i w') ≡ length s.pool.m_workers)
  moved s i w w' e h =
      let inside = in_range s.pool.m_workers i (ap one_exited e ∙ h) in
      let at = λ (f : Worker A → ℕ). sum_by-set f s.pool.m_workers i w' inside in
      (
        omega (arith, at one_asleep, ap one_asleep e),
        omega (arith, at one_active, ap one_active e),
        omega (arith, at one_exited, ap one_exited e),
        length-set s.pool.m_workers i w',
      )

  module _ (s : System A) (i : ℕ) (v : IsLive s) where
    decide_on-IsLive :
        (tasks : List A) (stop : Bool)
        → s.pool.m_tasks ≡ tasks
        → s.pool.m_stop ≡ stop
        → worker_at s.pool i ≡ deciding
        → IsLive
            (record s { pool = decide_on tasks stop i s.pool; started = s.started ++ front tasks })
    unfolding decide_on
    decide_on-IsLive [] true e f w =
        let (a, b, c, d) = moved s i deciding exited w refl in
        record {
          some_worker = omega arith;
          none_gone = λ g. cc;
          gone_empty = λ _. ap length e;
          awake = λ h. absurd (omega (arith, ap length e));
          shut = λ g q. omega (arith, v.shut g q);
        }
    decide_on-IsLive [] false e f w =
        let (a, b, c, d) = moved s i deciding asleep w refl in
        record {
          some_worker = omega arith;
          none_gone = λ g. omega (arith, v.none_gone g);
          gone_empty = λ _. ap length e;
          awake = λ h. absurd (omega (arith, ap length e));
          shut = λ g q. cc;
        }
    decide_on-IsLive (x ∷ rest) stop e f w =
        let (a, b, c, d) = moved s i deciding (running x) w refl in
        let busy : 0 < actives s = omega (
          arith,
          sum_by-set one_active s.pool.m_workers i exited
              (in_range s.pool.m_workers i (ap one_exited w)),
          ap one_active w,
        ) in
        record {
          some_worker = omega arith;
          none_gone = λ g. omega (arith, v.none_gone g);
          gone_empty = λ h. absurd (omega (arith, v.gone_empty (omega arith), ap length e));
          awake = λ h. omega arith;
          shut = λ g q. omega (arith, v.shut g q);
        }

    -- A worker that wakes.
    woken-IsLive :
        (due : ℕ)
        → s.one_due ≤ due + 1
        → worker_at s.pool i ≡ asleep
        → IsLive (record s { pool = set_worker s.pool i deciding; one_due = due })
    woken-IsLive due h w =
        let (a, b, c, d) = moved s i asleep deciding w refl in
        record {
          some_worker = omega arith;
          none_gone = λ g. omega (arith, v.none_gone g);
          gone_empty = λ h. v.gone_empty (omega arith);
          awake = λ h. omega arith;
          shut = λ g q. omega (arith, v.shut g q);
        }

    pub notify-IsLive : (w : Worker A) → worker_at s.pool i ≡ w → After IsLive (notify_step w i s)
    unfolding notify_step wake
    notify-IsLive asleep e = woken-IsLive (s.one_due - 1) (omega arith) e
    notify-IsLive deciding e = tt
    notify-IsLive (running x) e = tt
    notify-IsLive exited e = tt

    pub wake-IsLive : (w : Worker A) → worker_at s.pool i ≡ w → After IsLive (wake_step w i s)
    unfolding wake_step wake
    wake-IsLive asleep e = woken-IsLive s.one_due (omega arith) e
    wake-IsLive deciding e = tt
    wake-IsLive (running x) e = tt
    wake-IsLive exited e = tt

    pub decide-IsLive : (w : Worker A) → worker_at s.pool i ≡ w → After IsLive (decide_step w i s)
    unfolding decide_step decide
    decide-IsLive asleep e = tt
    decide-IsLive deciding e = decide_on-IsLive s.pool.m_tasks s.pool.m_stop refl refl e
    decide-IsLive (running x) e = tt
    decide-IsLive exited e = tt

    pub finish-IsLive : (w : Worker A) → worker_at s.pool i ≡ w → After IsLive (finish_step w i s)
    unfolding finish_step complete
    finish-IsLive asleep e = tt
    finish-IsLive deciding e = tt
    finish-IsLive exited e = tt
    finish-IsLive (running x) e =
        let (a, b, c, d) = moved s i (running x) deciding e refl in
        record {
          some_worker = omega arith;
          none_gone = λ g. omega (arith, v.none_gone g);
          gone_empty = λ h. v.gone_empty (omega arith);
          awake = λ h. omega (arith, v.awake h);
          shut = λ g q. omega (arith, v.shut g q);
        }
