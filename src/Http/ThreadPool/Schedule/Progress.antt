-- ===== src/Http/ThreadPool/Schedule/Progress.antt =====
-- The pool does not get stuck, and its shutdown ends.
use ebpf_system_monitor.Base.{
  ℕ, zero, suc, ◌-◌, ◌<◌, ◌≡◌, refl, ◌∙◌, ap, sym, ◌⊎◌, inl, inr, Bool, true, false, some, List, [],
  ◌∷◌, ◌==◌, arith, length, get_or, Bool-cases,
}
use ebpf_system_monitor.Http.ThreadPool.{
  Worker, deciding, asleep, running, exited, worker_at, wake, notify_all,
}
use ebpf_system_monitor.Http.ThreadPool.Schedule.{
  System, Event, submits, notifies, notifies_nobody, decides, finishes, wakes_spuriously, stops,
  notifies_all, one_asleep, notify_step, decide_step, finish_step, step,
}
use ebpf_system_monitor.Http.ThreadPool.Schedule.Counting.{
  one_active, sum_by, sum_by-all, none_asleep_of,
}
use ebpf_system_monitor.Http.ThreadPool.Schedule.Invariant.{IsLive, sleepers, actives, gone}

zero_or : (n : ℕ) → (n ≡ 0) ⊎ (0 < n)
zero_or zero = inl refl
zero_or (suc n) = inr (omega arith)

module _ {A : Type 0} where
  -- What the workers and the notifications that are due do: neither a new task, nor the
  -- destructor, nor a spurious wakeup.
  abbrev pub is_internal : Event A → Bool
  is_internal (submits x) = false
  is_internal (notifies i) = true
  is_internal notifies_nobody = true
  is_internal (decides i) = true
  is_internal (finishes i) = true
  is_internal (wakes_spuriously i) = false
  is_internal stops = false
  is_internal notifies_all = true

  -- A worker that counts.
  find :
      (f : Worker A → ℕ) (ws : List (Worker A))
      → 0 < sum_by f ws
      → (i : ℕ) × (0 < f (get_or ws i exited))
  find f [] h = absurd (omega arith)
  find f (w ∷ ws) h = elim (zero_or (f w)) [
    | inl z ↦ let (i, p) = find f ws (omega arith) in (suc i, p)
    | inr p ↦ (zero, p)
  ]

  abbrev pub CanStep : System A → Type 0
  CanStep s = (e : Event A) × (is_internal e ≡ true) × ((t : System A) × (step e s ≡ some t))

  active_steps : (s : System A) → 0 < actives s → CanStep s
  unfolding step decide_step finish_step
  active_steps s h =
      let (i, p) = find one_active s.pool.m_workers h in go i (worker_at s.pool i) refl p
    where
      go : (i : ℕ) (w : Worker A) → worker_at s.pool i ≡ w → 0 < one_active w → CanStep s
      go i deciding e p = (decides i, refl, (_, ap (λ w. decide_step w i s) e))
      go i (running x) e p = (finishes i, refl, (_, ap (λ w. finish_step w i s) e))
      go i asleep e p = absurd (omega arith)
      go i exited e p = absurd (omega arith)

  due_steps : (s : System A) → 0 < s.one_due → CanStep s
  unfolding step notify_step
  due_steps s h = elim (zero_or (sleepers s)) [
    | inl z ↦ (
      notifies_nobody,
      refl,
      (record s { one_due = s.one_due - 1 }, rw (due, none_asleep_of s.pool.m_workers z)),
    )
    | inr p ↦ let (i, q) = find one_asleep s.pool.m_workers p in go i (worker_at s.pool i) refl q
  ]
    where
      due : (s.one_due == 0) ≡ false
      due = ground arith

      go : (i : ℕ) (w : Worker A) → worker_at s.pool i ≡ w → 0 < one_asleep w → CanStep s
      go i asleep e p = (
        notifies i,
        refl,
        (
          record s { pool = wake i s.pool; one_due = s.one_due - 1 },
          rw due (ap (λ w. notify_step w i s) e),
        ),
      )
      go i deciding e p = absurd (omega arith)
      go i (running x) e p = absurd (omega arith)
      go i exited e p = absurd (omega arith)

  all_due_steps : (s : System A) → s.all_due ≡ true → CanStep s
  unfolding step
  all_due_steps s h =
      (notifies_all, refl, (record s { pool = notify_all s.pool; all_due = false }, rw h))

  pub live_steps :
      (s : System A)
      → IsLive s
      → (0 < length s.pool.m_tasks) ⊎ (s.pool.m_stop ≡ true)
      → gone s < length s.pool.m_workers
      → CanStep s
  live_steps s l work some_left = elim (zero_or (actives s)) [
    | inr p ↦ active_steps s p
    | inl z ↦ elim (Bool-cases s.pool.m_stop) [
      | inl stopped ↦ elim (Bool-cases s.all_due) [
        | inl due ↦ all_due_steps s due
        | inr quiet ↦ absurd (omega (arith, l.shut stopped quiet, sum_by-all s.pool.m_workers))
      ]
      | inr open_ ↦ elim work [
        | inl waiting ↦ due_steps s (omega (arith, l.awake waiting))
        | inr stopped ↦ let no : true ≡ false = sym stopped ∙ open_ in cc
      ]
    ]
  ]
