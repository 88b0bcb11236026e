-- ===== src/Monitor/MainLoop.antt =====
-- The main loop of run_monitor. A round comes with what the signal handler has done, the events that the
-- two polls deliver, and the time.
use ebpf_system_monitor.Base.{
  ℕ, ◌-◌, ◌/◌, Bool, not, ◌&&◌, List, [], ◌∷◌, ◌++◌, leb, if◌then◌else◌, Text,
}
use ebpf_system_monitor.Bpf.Events.{TcpEvent, SyscallEvent}
use ebpf_system_monitor.StatsReporter.{Entry, print_top}
use ebpf_system_monitor.Monitor.{Monitor, on_signal, handle_tcp_event, handle_syscall_event}

abbrev pub print_interval_sec : ℕ
print_interval_sec = 5

pub record Round : Type 0 where
  pub signalled : Bool
  pub tcp_events : List TcpEvent
  pub audit_events : List SyscallEvent
  pub now : ℕ  -- nanoseconds of the steady clock

module _ (inet_ntop : ℕ → Text) (sort : (Entry → Entry → Bool) → List Entry → List Entry) where
  -- The polls: a callback for each event.
  unfoldable pub poll_tcp : List TcpEvent → Monitor → Monitor
  poll_tcp [] m = m
  poll_tcp (ev ∷ evs) m = poll_tcp evs (handle_tcp_event inet_ntop ev m)

  unfoldable pub poll_audit : List SyscallEvent → Monitor → Monitor
  poll_audit [] m = m
  poll_audit (ev ∷ evs) m = poll_audit evs (handle_syscall_event ev m)

  unfoldable pub print_if_due : ℕ → Monitor → Monitor
  print_if_due now m =
      if not m.g_json && leb print_interval_sec ((now - m.last_print) / 1000000000)
      then record m { shown = m.shown ++ (print_top sort 10 m.reporter ∷ []); last_print = now }
      else m

  unfoldable pub loop_body : Round → Monitor → Monitor
  unfolding poll_tcp poll_audit print_if_due
  loop_body r m = print_if_due r.now (poll_audit r.audit_events (poll_tcp r.tcp_events m))

  -- The loop; a signal before a round is seen by the test of that round. Past the list of rounds the
  -- program is still running.
  unfoldable pub main_loop : List Round → Monitor → Monitor
  unfolding loop_body
  main_loop [] m = m
  main_loop (r ∷ rs) m =
      let next = main_loop rs (loop_body r m) in
      let seen = if r.signalled then on_signal m else m in if seen.g_stop then seen else next
