-- ===== src/Http/ThreadPool/Schedule/Sound.antt =====
-- Which tasks have started and finished.
use mathlib.Core.List.{Perm}
use mathlib.Core.List.Perm
use ebpf_system_monitor.Base.{
  ℕ, ◌-◌, ◌%◌, ◌^◌, ◌≡◌, refl, ◌∙◌, ap, sym, subst, append_assoc, append-nil, inl, inr, Bool, true,
  false, Option, none, some, List, [], ◌∷◌, ◌++◌, ◌==◌, arith, length, length-append, Bool-cases,
}
use ebpf_system_monitor.Http.ThreadPool.{
  Worker, deciding, asleep, running, exited, construct, push, worker_at, set_worker, decide_on,
  decide, complete, wake, notify_all, stop,
}
use ebpf_system_monitor.Http.ThreadPool.Schedule.{
  System, Event, submits, notifies, notifies_nobody, decides, finishes, wakes_spuriously, stops,
  notifies_all, start, front, none_asleep, submit_step, notify_step, decide_step, finish_step,
  wake_step, step,
}
use ebpf_system_monitor.Http.ThreadPool.Schedule.Counting.{
  one_exited, task_of, in_progress, in_progress-woken, in_progress-replicate, in_progress-set_idle,
  in_range, ran_start, ran_finish,
}

-- Tasks start in the order of their submission, those waiting are the queue, and those started
-- are finished or being run, each once. The two counters count.
pub record IsSound {A : Type 0} (s : System A) : Type 0 where
  pub queue : s.submitted ≡ s.started ++ s.pool.m_tasks
  pub ran : Perm s.started (s.finished ++ in_progress s.pool.m_workers)
  pub pending : s.pool.m_pending ≡ length s.pool.m_tasks % 2 ^ 64
  pub completed : s.pool.m_completed ≡ length s.finished % 2 ^ 64

-- A property of the state after a step, if there is one.
abbrev pub After {ℓ} : {S : Type 0} → (S → Type ℓ) → Option S → Type ℓ
After P none = Unit
After P (some t) = P t

module _ {A : Type 0} where
  pub start-IsSound : (n : ℕ) → IsSound {A = A} (start n)
  unfolding construct
  start-IsSound n = record {
    queue = refl;
    ran = rw (in_progress-replicate {A = A}) (Perm.refl []);
    pending = omega arith;
    completed = omega arith;
  }

  -- A worker without a task before and after changes nothing here.
  idle-IsSound :
      (s : System A) (i : ℕ) (w : Worker A) (due : ℕ)
      → task_of (worker_at s.pool i) ≡ []
      → task_of w ≡ []
      → IsSound s
      → IsSound (record s { pool = set_worker s.pool i w; one_due = due })
  idle-IsSound s i w due h k v = record {
    queue = v.queue;
    ran =
        subst (λ l. Perm s.started (s.finished ++ l))
          (sym (in_progress-set_idle s.pool.m_workers i w h k)) v.ran;
    pending = v.pending;
    completed = v.completed;
  }

  submit-IsSound : (s : System A) (x : A) → IsSound s → After IsSound (step (submits x) s)
  unfolding step push
  submit-IsSound s x v = elim (Bool-cases s.pool.m_stop) [
    | inl stopped ↦ rw (stopped, submit_step) tt
    | inr open_ ↦
        rw (open_, submit_step)
          (record {
            queue =
                ap (λ l. l ++ (x ∷ [])) v.queue ∙ append_assoc s.started s.pool.m_tasks (x ∷ []);
            ran = v.ran;
            pending = omega (arith, v.pending, length-append s.pool.m_tasks (x ∷ []));
            completed = v.completed;
          })
  ]

  decide_on-IsSound :
      (s : System A) (i : ℕ) (tasks : List A) (stop : Bool)
      → s.pool.m_tasks ≡ tasks
      → worker_at s.pool i ≡ deciding
      → IsSound s
      → IsSound
          (record s { pool = decide_on tasks stop i s.pool; started = s.started ++ front tasks })
  unfolding decide_on
  decide_on-IsSound s i [] true e w v =
      rw append-nil (idle-IsSound s i exited s.one_due (ap task_of w) refl v)
  decide_on-IsSound s i [] false e w v =
      rw append-nil (idle-IsSound s i asleep s.one_due (ap task_of w) refl v)
  decide_on-IsSound s i (x ∷ rest) stop e w v = record {
    queue = v.queue ∙ ap (λ l. s.started ++ l) e ∙ sym (append_assoc s.started (x ∷ []) rest);
    ran =
        ran_start s.started s.finished s.pool.m_workers i x
          (in_range s.pool.m_workers i (ap one_exited w)) (ap task_of w) v.ran;
    pending = omega (arith, v.pending, ap length e);
    completed = v.completed;
  }

  notify-IsSound :
      (s : System A) (i : ℕ) (w : Worker A)
      → worker_at s.pool i ≡ w
      → IsSound s
      → After IsSound (notify_step w i s)
  unfolding notify_step wake
  notify-IsSound s i asleep e v = idle-IsSound s i deciding (s.one_due - 1) (ap task_of e) refl v
  notify-IsSound s i deciding e v = tt
  notify-IsSound s i (running x) e v = tt
  notify-IsSound s i exited e v = tt

  decide-IsSound :
      (s : System A) (i : ℕ) (w : Worker A)
      → worker_at s.pool i ≡ w
      → IsSound s
      → After IsSound (decide_step w i s)
  unfolding decide_step decide
  decide-IsSound s i asleep e v = tt
  decide-IsSound s i deciding e v = decide_on-IsSound s i s.pool.m_tasks s.pool.m_stop refl e v
  decide-IsSound s i (running x) e v = tt
  decide-IsSound s i exited e v = tt

  finish-IsSound :
      (s : System A) (i : ℕ) (w : Worker A)
      → worker_at s.pool i ≡ w
      → IsSound s
      → After IsSound (finish_step w i s)
  unfolding finish_step complete
  finish-IsSound s i asleep e v = tt
  finish-IsSound s i deciding e v = tt
  finish-IsSound s i exited e v = tt
  finish-IsSound s i (running x) e v = record {
    queue = v.queue;
    ran = ran_finish s.started s.finished s.pool.m_workers i x e v.ran;
    pending = v.pending;
    completed = omega (arith, v.completed, length-append s.finished (x ∷ []));
  }

  wake-IsSound :
      (s : System A) (i : ℕ) (w : Worker A)
      → worker_at s.pool i ≡ w
      → IsSound s
      → After IsSound (wake_step w i s)
  unfolding wake_step wake
  wake-IsSound s i asleep e v = idle-IsSound s i deciding s.one_due (ap task_of e) refl v
  wake-IsSound s i deciding e v = tt
  wake-IsSound s i (running x) e v = tt
  wake-IsSound s i exited e v = tt

  pub step-IsSound : (e : Event A) (s : System A) → IsSound s → After IsSound (step e s)
  unfolding step notify_all stop
  step-IsSound (submits x) s v = submit-IsSound s x v
  step-IsSound (notifies i) s v = elim (Bool-cases (s.one_due == 0)) [
    | inl none_due ↦ rw none_due tt
    | inr due ↦ rw due (notify-IsSound s i (worker_at s.pool i) refl v)
  ]
  step-IsSound notifies_nobody s v = elim (Bool-cases (s.one_due == 0)) [
    | inl none_due ↦ rw none_due tt
    | inr due ↦ elim (Bool-cases (none_asleep s.pool.m_workers)) [
      | inl all_up ↦
          rw (due, all_up)
            (record { queue = v.queue; ran = v.ran; pending = v.pending; completed = v.completed })
      | inr one ↦ rw (due, one) tt
    ]
  ]
  step-IsSound (decides i) s v = decide-IsSound s i (worker_at s.pool i) refl v
  step-IsSound (finishes i) s v = finish-IsSound s i (worker_at s.pool i) refl v
  step-IsSound (wakes_spuriously i) s v = wake-IsSound s i (worker_at s.pool i) refl v
  step-IsSound stops s v = elim (Bool-cases s.pool.m_stop) [
    | inl stopped ↦ rw stopped tt
    | inr open_ ↦
        rw open_
          (record { queue = v.queue; ran = v.ran; pending = v.pending; completed = v.completed })
  ]
  step-IsSound notifies_all s v = elim (Bool-cases s.all_due) [
    | inl due ↦ rw due (record {
      queue = v.queue;
      ran =
          subst (λ l. Perm s.started (s.finished ++ l)) (sym (in_progress-woken s.pool.m_workers))
            v.ran;
      pending = v.pending;
      completed = v.completed;
    })
    | inr quiet ↦ rw quiet tt
  ]
