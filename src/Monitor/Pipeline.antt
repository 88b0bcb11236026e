-- ===== src/Monitor/Pipeline.antt =====
-- From the events of the ring buffer to the table.
use ebpf_system_monitor.Base.{
  ℕ, ◌≡◌, refl, ◌∙◌, ap, sym, inl, inr, Bool, false, List, [], ◌∷◌, ◌++◌, if◌then◌else◌, arith,
  Bool-cases, Text,
}
use ebpf_system_monitor.Bpf.Events.{TcpEvent, SyscallEvent}
use ebpf_system_monitor.StatsReporter.{
  ConnectionKey, Entry, StatsReporter, record_event, record_all,
}
use ebpf_system_monitor.StatsReporter.Table.{lookup, of_key, summary, record_all-summary}
use ebpf_system_monitor.Monitor.{Monitor, on_signal, handle_tcp_event, handle_syscall_event}
use ebpf_system_monitor.Monitor.MainLoop.{
  Round, poll_tcp, poll_audit, print_if_due, loop_body, main_loop,
}

-- The events of the rounds before the first signal.
abbrev pub polled : List Round → List TcpEvent
polled [] = []
polled (r ∷ rs) = if r.signalled then [] else r.tcp_events ++ polled rs

record_all-append :
    (xs ys : List TcpEvent) (r : StatsReporter)
    → record_all (xs ++ ys) r ≡ record_all ys (record_all xs r)
unfolding record_all
record_all-append [] ys r = refl
record_all-append (x ∷ xs) ys r = record_all-append xs ys (record_event x r)

module _ (inet_ntop : ℕ → Text) (sort : (Entry → Entry → Bool) → List Entry → List Entry) where
  -- What a part of the loop does to the table and to the flag.
  abbrev Recorded : List TcpEvent → Monitor → Monitor → Type 0
  Recorded evs m m' = (m'.reporter ≡ record_all evs m.reporter) × (m'.g_stop ≡ m.g_stop)

  handle-Recorded :
      (ev : TcpEvent) (m : Monitor) → Recorded (ev ∷ []) m (handle_tcp_event inet_ntop ev m)
  unfolding handle_tcp_event record_all
  handle-Recorded ev m = elim (Bool-cases m.g_json) [
    | inl json ↦ rw json (refl, refl)
    | inr table ↦ rw table (refl, refl)
  ]

  poll_tcp-Recorded :
      (evs : List TcpEvent) (m : Monitor) → Recorded evs m (poll_tcp inet_ntop sort evs m)
  unfolding poll_tcp record_all
  poll_tcp-Recorded [] m = (refl, refl)
  poll_tcp-Recorded (ev ∷ evs) m =
      let (one, flag) = handle-Recorded ev m in
      let (all, flag') = poll_tcp-Recorded evs (handle_tcp_event inet_ntop ev m) in
      (all ∙ ap (record_all evs) one, flag' ∙ flag)

  poll_audit-Recorded :
      (evs : List SyscallEvent) (m : Monitor) → Recorded [] m (poll_audit inet_ntop sort evs m)
  unfolding poll_audit record_all handle_syscall_event
  poll_audit-Recorded [] m = (refl, refl)
  poll_audit-Recorded (ev ∷ evs) m = poll_audit-Recorded evs (handle_syscall_event ev m)

  print-Recorded : (now : ℕ) (m : Monitor) → Recorded [] m (print_if_due inet_ntop sort now m)
  unfolding print_if_due record_all
  print-Recorded now m = ground arith

  loop_body-Recorded :
      (r : Round) (m : Monitor) → Recorded r.tcp_events m (loop_body inet_ntop sort r m)
  unfolding loop_body record_all
  loop_body-Recorded r m =
      let m₁ = poll_tcp inet_ntop sort r.tcp_events m in
      let m₂ = poll_audit inet_ntop sort r.audit_events m₁ in
      let (a, f) = poll_tcp-Recorded r.tcp_events m in
      let (b, g) = poll_audit-Recorded r.audit_events m₁ in
      let (c, h) = print-Recorded r.now m₂ in (c ∙ b ∙ a, h ∙ g ∙ f)

  pub main_loop-reporter :
      (rs : List Round) (m : Monitor)
      → m.g_stop ≡ false
      → (main_loop inet_ntop sort rs m).reporter ≡ record_all (polled rs) m.reporter
  unfolding main_loop record_all on_signal
  main_loop-reporter [] m on = refl
  main_loop-reporter (r ∷ rs) m on = elim (Bool-cases r.signalled) [
    | inl now_ ↦ simp (now_, on_signal)
    | inr later ↦
        let (a, f) = loop_body-Recorded r m in
        simp (later, on)
          (main_loop-reporter rs (loop_body inet_ntop sort r m) (f ∙ on)
            ∙ ap (record_all (polled rs)) a
            ∙ sym (record_all-append r.tcp_events (polled rs) m.reporter))
  ]

  -- The table of a monitor that began with an empty one holds for each connection what its own events
  -- call for, of all those that the rounds before the first signal deliver, in their order.
  pub main_loop-summary :
      (rs : List Round) (m : Monitor) (k : ConnectionKey)
      → m.g_stop ≡ false
      → m.reporter ≡ []
      → lookup k (main_loop inet_ntop sort rs m).reporter ≡ summary (of_key k (polled rs))
  main_loop-summary rs m k on empty =
      ap (lookup k) (main_loop-reporter rs m on ∙ ap (record_all (polled rs)) empty)
      ∙ record_all-summary k (polled rs)
