-- ===== src/Http/ThreadPool/Schedule/Shutdown.antt =====
-- The shutdown ends.
use ebpf_system_monitor.Base.{
  ℕ, ◌+◌, ◌*◌, ◌<◌, ◌≤◌, ◌≡◌, refl, ◌∙◌, ap, subst, inl, inr, Bool, true, false, some, List, [],
  ◌∷◌, ◌++◌, ◌==◌, arith, length, length-set, length-map, set, if◌then◌else◌, Bool-cases, map,
}
use ebpf_system_monitor.Http.ThreadPool.{
  Worker, deciding, asleep, running, exited, push, worker_at, decide_on, decide, complete, wake,
  notify_all, stop, woken,
}
use ebpf_system_monitor.Http.ThreadPool.Schedule.{
  System, Event, submits, notifies, notifies_nobody, decides, finishes, wakes_spuriously, stops,
  notifies_all, start, front, none_asleep, submit_step, notify_step, decide_step, finish_step,
  wake_step, step, run,
}
use ebpf_system_monitor.Http.ThreadPool.Schedule.Counting.{one_exited, sum_by, sum_by-set, in_range}
use ebpf_system_monitor.Http.ThreadPool.Schedule.Invariant.{
  run-keeps, step-IsLive, After, IsLive, gone, run-cons, run-IsLive,
}
use ebpf_system_monitor.Http.ThreadPool.Schedule.Progress.{is_internal, CanStep, live_steps}

module _ {A : Type 0} where
  -- What is left to do, without new tasks and spurious wakeups.
  abbrev weight : Worker A → ℕ
  weight deciding = 1
  weight (running x) = 2
  weight asleep = 0
  weight exited = 0

  abbrev pub measure : System A → ℕ
  measure s =
      2 * length s.pool.m_tasks
      + 2 * s.one_due
      + (if s.all_due then length s.pool.m_workers + 1 else 0)
      + sum_by weight s.pool.m_workers

  weight-woken :
      (ws : List (Worker A)) → sum_by weight (map woken ws) ≤ sum_by weight ws + length ws
  weight-woken [] = omega arith
  weight-woken (asleep ∷ ws) = omega (arith, weight-woken ws)
  weight-woken (deciding ∷ ws) = omega (arith, weight-woken ws)
  weight-woken (running x ∷ ws) = omega (arith, weight-woken ws)
  weight-woken (exited ∷ ws) = omega (arith, weight-woken ws)

  reweighed :
      (s : System A) (i : ℕ) (w w' : Worker A)
      → worker_at s.pool i ≡ w
      → one_exited w ≡ 0
      → (sum_by weight (set s.pool.m_workers i w') + weight w
          ≡ sum_by weight s.pool.m_workers + weight w')
        × (length (set s.pool.m_workers i w') ≡ length s.pool.m_workers)
  reweighed s i w w' e h = (
    omega (
      arith,
      sum_by-set weight s.pool.m_workers i w' (in_range s.pool.m_workers i (ap one_exited e ∙ h)),
      ap weight e,
    ),
    length-set s.pool.m_workers i w',
  )

  abbrev Less : System A → System A → Type 0
  Less s t = measure t < measure s

  module _ (s : System A) (i : ℕ) where
    notify-Less :
        (w : Worker A) → worker_at s.pool i ≡ w → 0 < s.one_due → After (Less s) (notify_step w i s)
    unfolding notify_step wake
    notify-Less asleep e h = let (a, b) = reweighed s i asleep deciding e refl in ground arith
    notify-Less deciding e h = tt
    notify-Less (running x) e h = tt
    notify-Less exited e h = tt

    decide_on-Less :
        (tasks : List A) (stop : Bool)
        → s.pool.m_tasks ≡ tasks
        → worker_at s.pool i ≡ deciding
        → Less s
            (record s { pool = decide_on tasks stop i s.pool; started = s.started ++ front tasks })
    unfolding decide_on
    decide_on-Less [] true e w = let (a, b) = reweighed s i deciding exited w refl in ground arith
    decide_on-Less [] false e w = let (a, b) = reweighed s i deciding asleep w refl in ground arith
    decide_on-Less (x ∷ rest) stop e w =
        let (a, b) = reweighed s i deciding (running x) w refl in ground (arith, ap length e)

    decide-Less : (w : Worker A) → worker_at s.pool i ≡ w → After (Less s) (decide_step w i s)
    unfolding decide_step decide
    decide-Less asleep e = tt
    decide-Less deciding e = decide_on-Less s.pool.m_tasks s.pool.m_stop refl e
    decide-Less (running x) e = tt
    decide-Less exited e = tt

    finish-Less : (w : Worker A) → worker_at s.pool i ≡ w → After (Less s) (finish_step w i s)
    unfolding finish_step complete
    finish-Less (running x) e =
        let (a, b) = reweighed s i (running x) deciding e refl in ground arith
    finish-Less asleep e = tt
    finish-Less deciding e = tt
    finish-Less exited e = tt

  step-Less : (e : Event A) (s : System A) → is_internal e ≡ true → After (Less s) (step e s)
  unfolding step notify_all
  step-Less (submits x) s h = cc
  step-Less (wakes_spuriously i) s h = cc
  step-Less stops s h = cc
  step-Less (notifies i) s h = elim (Bool-cases (s.one_due == 0)) [
    | inl none_due ↦ rw none_due tt
    | inr due ↦ rw due (notify-Less s i (worker_at s.pool i) refl (ground arith))
  ]
  step-Less notifies_nobody s h = elim (Bool-cases (s.one_due == 0)) [
    | inl none_due ↦ rw none_due tt
    | inr due ↦ elim (Bool-cases (none_asleep s.pool.m_workers)) [
      | inl all_up ↦ rw (due, all_up) (ground arith)
      | inr one ↦ rw (due, one) tt
    ]
  ]
  step-Less (decides i) s h = decide-Less s i (worker_at s.pool i) refl
  step-Less (finishes i) s h = finish-Less s i (worker_at s.pool i) refl
  step-Less notifies_all s h = elim (Bool-cases s.all_due) [
    | inl due ↦
        rw due (ground (arith, weight-woken s.pool.m_workers, length-map woken s.pool.m_workers))
    | inr quiet ↦ rw quiet tt
  ]

  -- The flag stays set.
  abbrev Stopped : System A → Type 0
  Stopped t = t.pool.m_stop ≡ true

  module _ (s : System A) (h : Stopped s) where
    decide_on-Stopped :
        (tasks : List A) (stop : Bool) (i : ℕ) → (decide_on tasks stop i s.pool).m_stop ≡ true
    unfolding decide_on
    decide_on-Stopped [] true i = h
    decide_on-Stopped [] false i = h
    decide_on-Stopped (x ∷ rest) stop i = h

    at-Stopped :
        (w : Worker A) (i : ℕ)
        → After Stopped (notify_step w i s)
          × After Stopped (decide_step w i s)
          × After Stopped (finish_step w i s)
          × After Stopped (wake_step w i s)
    unfolding notify_step decide_step finish_step wake_step decide complete wake
    at-Stopped asleep i = (h, tt, tt, h)
    at-Stopped deciding i = (tt, decide_on-Stopped s.pool.m_tasks s.pool.m_stop i, tt, tt)
    at-Stopped (running x) i = (tt, tt, h, tt)
    at-Stopped exited i = (tt, tt, tt, tt)

  step-Stopped : (e : Event A) (s : System A) → Stopped s → After Stopped (step e s)
  unfolding step push notify_all
  step-Stopped (submits x) s h = simp (h, submit_step) tt
  step-Stopped (notifies i) s h = elim (Bool-cases (s.one_due == 0)) [
    | inl none_due ↦ rw none_due tt
    | inr due ↦ rw due (at-Stopped s h (worker_at s.pool i) i).0
  ]
  step-Stopped notifies_nobody s h = elim (Bool-cases (s.one_due == 0)) [
    | inl none_due ↦ rw none_due tt
    | inr due ↦ elim (Bool-cases (none_asleep s.pool.m_workers)) [
      | inl all_up ↦ rw (due, all_up) h
      | inr one ↦ rw (due, one) tt
    ]
  ]
  step-Stopped (decides i) s h = (at-Stopped s h (worker_at s.pool i) i).1
  step-Stopped (finishes i) s h = (at-Stopped s h (worker_at s.pool i) i).2
  step-Stopped (wakes_spuriously i) s h = (at-Stopped s h (worker_at s.pool i) i).3
  step-Stopped stops s h = simp h tt
  step-Stopped notifies_all s h = elim (Bool-cases s.all_due) [
    | inl due ↦ rw due h
    | inr quiet ↦ rw quiet tt
  ]

  abbrev pub AllInternal : List (Event A) → Type 0
  AllInternal [] = Unit {0}
  AllInternal (e ∷ es) = (is_internal e ≡ true) × AllInternal es

  run_shortens :
      (es : List (Event A)) (s t : System A)
      → AllInternal es
      → run es s ≡ some t
      → length es + measure t ≤ measure s
  unfolding run
  run_shortens [] s t h r = let same : s ≡ t = cc in omega (arith, ap measure same)
  run_shortens (e ∷ es) s t h r =
      let (u, go, rest) = run-cons e es s t r in
      omega (arith, subst (After (Less s)) go (step-Less e s h.0), run_shortens es u t h.1 rest)

  -- From a state that the threads reach in which the destructor has set its flag, the workers and
  -- the notifications take a bounded number of steps, and while a worker has not returned they can take
  -- another: so all workers return, and the join in the destructor ends. Tasks are taken to
  -- return, and spurious wakeups are left out.
  pub shutdown_ends :
      (n : ℕ) (es fs : List (Event A)) (s t : System A)
      → run es (start n) ≡ some s
      → s.pool.m_stop ≡ true
      → AllInternal fs
      → run fs s ≡ some t
      → (length fs ≤ measure s) × (gone t < length t.pool.m_workers → CanStep t)
  shutdown_ends n es fs s t r stopped internal more = (
    omega (arith, run_shortens fs s t internal more),
    live_steps t (run-keeps IsLive step-IsLive fs s t more (run-IsLive n es s r))
        (inr (run-keeps (λ (u : System A). u.pool.m_stop ≡ true) step-Stopped fs s t more stopped)),
  )
