-- ===== src/Http/ThreadPool/Schedule/Live.antt =====
-- Every step keeps awake the workers that are needed.
pub use ebpf_system_monitor.Http.ThreadPool.Schedule.Workers.{
  IsLive, sleepers, actives, gone, start-IsLive,
}
use ebpf_system_monitor.Http.ThreadPool.Schedule.Workers.{
  decide-IsLive, finish-IsLive, wake-IsLive, notify-IsLive,
}
use ebpf_system_monitor.Base.{
  ℕ, zero, suc, ◌<◌, ◌≡◌, refl, ◌∙◌, ◌⊎◌, inl, inr, ◌==◌, arith, length-map, Bool-cases,
}
use ebpf_system_monitor.Http.ThreadPool.{push, worker_at, notify_all, stop, woken}
use ebpf_system_monitor.Http.ThreadPool.Schedule.{
  System, Event, submits, notifies, notifies_nobody, decides, finishes, wakes_spuriously, stops,
  notifies_all, none_asleep, submit_step, step,
}
use ebpf_system_monitor.Http.ThreadPool.Schedule.Counting.{
  sum_by-all, none_asleep_iff, woken_asleep, woken_exited, woken_active,
}
use ebpf_system_monitor.Http.ThreadPool.Schedule.Sound.{After}

module _ {A : Type 0} where
  submit-IsLive : (s : System A) (x : A) → IsLive s → After IsLive (step (submits x) s)
  unfolding step push
  submit-IsLive s x v = elim (Bool-cases s.pool.m_stop) [
    | inl stopped ↦ rw (stopped, submit_step) tt
    | inr open_ ↦
        simp (open_, submit_step)
          (record {
            some_worker = v.some_worker;
            none_gone = λ _. v.none_gone open_;
            gone_empty = λ h. let e : gone s ≡ 0 = v.none_gone open_ in absurd (omega arith);
            awake = λ _. omega arith;
            shut = λ h q. cc;
          })
  ]

  nobody-IsLive : (s : System A) → IsLive s → After IsLive (step notifies_nobody s)
  unfolding step
  nobody-IsLive s v = elim (Bool-cases (s.one_due == 0)) [
    | inl none_due ↦ rw none_due tt
    | inr due ↦ elim (Bool-cases (none_asleep s.pool.m_workers)) [
      | inl all_up ↦
          rw (due, all_up)
            (record {
              some_worker = v.some_worker;
              none_gone = v.none_gone;
              gone_empty = v.gone_empty;
              awake = λ h. elim (pos_cases (gone s)) [
                | inl z ↦ omega (
                  arith,
                  z,
                  none_asleep_iff s.pool.m_workers all_up,
                  sum_by-all s.pool.m_workers,
                  v.some_worker,
                )
                | inr p ↦ absurd (omega (arith, v.gone_empty p))
              ];
              shut = v.shut;
            })
      | inr one ↦ rw (due, one) tt
    ]
  ]
    where
      pos_cases : (n : ℕ) → (n ≡ 0) ⊎ (0 < n)
      pos_cases zero = inl refl
      pos_cases (suc n) = inr (omega arith)

  stops-IsLive : (s : System A) → IsLive s → After IsLive (step stops s)
  unfolding step stop
  stops-IsLive s v = elim (Bool-cases s.pool.m_stop) [
    | inl stopped ↦ rw stopped tt
    | inr open_ ↦ simp open_ (record {
      some_worker = v.some_worker;
      none_gone = λ g. cc;
      gone_empty = v.gone_empty;
      awake = v.awake;
      shut = λ g q. cc;
    })
  ]

  all-IsLive : (s : System A) → IsLive s → After IsLive (step notifies_all s)
  unfolding step notify_all
  all-IsLive s v = elim (Bool-cases s.all_due) [
    | inl due ↦ simp due (record {
      some_worker = omega (arith, v.some_worker, length-map woken s.pool.m_workers);
      none_gone = λ g. woken_exited s.pool.m_workers ∙ v.none_gone g;
      gone_empty = λ h. v.gone_empty (omega (arith, woken_exited s.pool.m_workers));
      awake = λ h. omega (arith, v.awake h, woken_active s.pool.m_workers);
      shut = λ g q. woken_asleep s.pool.m_workers;
    })
    | inr quiet ↦ rw quiet tt
  ]

  pub step-IsLive : (e : Event A) (s : System A) → IsLive s → After IsLive (step e s)
  unfolding step
  step-IsLive (submits x) s v = submit-IsLive s x v
  step-IsLive (notifies i) s v = elim (Bool-cases (s.one_due == 0)) [
    | inl none_due ↦ rw none_due tt
    | inr due ↦ rw due (notify-IsLive s i v (worker_at s.pool i) refl)
  ]
  step-IsLive notifies_nobody s v = nobody-IsLive s v
  step-IsLive (decides i) s v = decide-IsLive s i v (worker_at s.pool i) refl
  step-IsLive (finishes i) s v = finish-IsLive s i v (worker_at s.pool i) refl
  step-IsLive (wakes_spuriously i) s v = wake-IsLive s i v (worker_at s.pool i) refl
  step-IsLive stops s v = stops-IsLive s v
  step-IsLive notifies_all s v = all-IsLive s v
