-- ===== src/Http/ThreadPool/Schedule/Invariant.antt =====
-- What holds in every state that the threads reach.
pub use ebpf_system_monitor.Http.ThreadPool.Schedule.Sound.{IsSound, After}
pub use ebpf_system_monitor.Http.ThreadPool.Schedule.Live.{
  IsLive, sleepers, actives, gone, step-IsLive,
}
use mathlib.Core.List.{Perm}
use ebpf_system_monitor.Base.{
  ℕ, ◌%◌, ◌^◌, ◌≡◌, refl, ◌∙◌, ap, sym, subst, length-perm, Bool-cases, inl, inr, none, some, List,
  [], ◌∷◌, ◌++◌, arith, length, Option-cases, append-nil,
}
use ebpf_system_monitor.Http.ThreadPool.{Worker, push}
use ebpf_system_monitor.Http.ThreadPool.Schedule.{System, Event, start, step, run}
use ebpf_system_monitor.Http.ThreadPool.Schedule.Sound.{start-IsSound, step-IsSound}
use ebpf_system_monitor.Http.ThreadPool.Schedule.Live.{start-IsLive}
use ebpf_system_monitor.Http.ThreadPool.{deciding, asleep, running, exited}
use ebpf_system_monitor.Http.ThreadPool.Schedule.Counting.{
  one_active, sum_by, sum_by-all, in_progress,
}

module _ {A : Type 0} where
  pub run-cons :
      (e : Event A) (es : List (Event A)) (s t : System A)
      → run (e ∷ es) s ≡ some t
      → (u : System A) × (step e s ≡ some u) × (run es u ≡ some t)
  unfolding run
  run-cons e es s t r = elim (Option-cases (step e s)) [
    | inl n ↦ let r' : none ≡ some t = rw (n, run) at r in cc
    | inr (u, go) ↦ (u, go, rw (go, run) at r)
  ]

  pub run-keeps {ℓ} :
      (P : System A → Type ℓ)
      → ((e : Event A) (s : System A) → P s → After P (step e s))
      → (es : List (Event A)) (s t : System A) → run es s ≡ some t
      → P s
      → P t
  unfolding run
  run-keeps P keep [] s t r h = let same : s ≡ t = cc in subst P same h
  run-keeps P keep (e ∷ es) s t r h =
      let (u, go, rest) = run-cons e es s t r in
      run-keeps P keep es u t rest (subst (After P) go (keep e s h))

  -- From a new pool, in whatever order the threads act: tasks start in the order of their
  -- submission, those waiting are the queue, those started are finished or being run, each once, and
  -- pending and completed count those waiting and those finished, modulo 2 ^ 64.
  pub run-IsSound :
      (n : ℕ) (es : List (Event A)) (t : System A) → run es (start n) ≡ some t → IsSound t
  run-IsSound n es t r = run-keeps IsSound step-IsSound es (start n) t r (start-IsSound n)

  pub run-IsLive :
      (n : ℕ) (es : List (Event A)) (t : System A) → run es (start n) ≡ some t → IsLive t
  run-IsLive n es t r = run-keeps IsLive step-IsLive es (start n) t r (start-IsLive n)

  in_progress_none : (ws : List (Worker A)) → sum_by one_active ws ≡ 0 → in_progress ws ≡ []
  in_progress_none [] h = refl
  in_progress_none (asleep ∷ ws) h = in_progress_none ws (omega arith)
  in_progress_none (exited ∷ ws) h = in_progress_none ws (omega arith)
  in_progress_none (deciding ∷ ws) h = absurd (omega arith)
  in_progress_none (running x ∷ ws) h = absurd (omega arith)

  no_tasks : (xs : List A) → length xs ≡ 0 → xs ≡ []
  no_tasks [] h = refl
  no_tasks (x ∷ xs) h = absurd (omega arith)

  -- When all workers have returned, every task that was submitted has been finished, each once;
  -- completed is their number, modulo 2 ^ 64, none waits, and submit throws.
  pub drained :
      (n : ℕ) (es : List (Event A)) (t : System A) (x : A)
      → run es (start n) ≡ some t
      → gone t ≡ length t.pool.m_workers
      → Perm t.submitted t.finished
        × (t.pool.m_completed ≡ length t.submitted % 2 ^ 64)
        × (t.pool.m_tasks ≡ [])
        × (push x t.pool ≡ none)
  unfolding push
  drained n es t x r all =
      let v = run-IsSound n es t r in
      let l = run-IsLive n es t r in
      let empty : t.pool.m_tasks ≡ [] =
        no_tasks t.pool.m_tasks (l.gone_empty (omega (arith, l.some_worker, all))) in
      let idle : in_progress t.pool.m_workers ≡ [] =
        in_progress_none t.pool.m_workers (omega (arith, sum_by-all t.pool.m_workers, all)) in
      let begun : t.submitted ≡ t.started =
        v.queue ∙ ap (λ l. t.started ++ l) empty ∙ append-nil t.started in
      let done : Perm t.started t.finished =
        subst (λ l. Perm t.started l) (ap (λ l. t.finished ++ l) idle ∙ append-nil t.finished)
          v.ran in
      (
        subst (λ l. Perm l t.finished) (sym begun) done,
        omega (arith, v.completed, length-perm done, ap length begun),
        empty,
        elim (Bool-cases t.pool.m_stop) [
          | inl stopped ↦ rw stopped
          | inr open_ ↦ absurd (omega (arith, l.none_gone open_, l.some_worker, all))
        ],
      )
