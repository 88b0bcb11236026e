-- ===== src/Monitor/Tests.antt =====
-- The theorems about the main program at concrete inputs.
use ebpf_system_monitor.Base.{
  ℕ, ◌≡◌, refl, Bool, true, false, some, List, [], ◌∷◌, ◌++◌, if◌then◌else◌, Text, ascii, to_string,
  text_eq,
}
use ebpf_system_monitor.Bpf.Events.{TcpEvent}
use ebpf_system_monitor.StatsReporter.{Entry, key_of}
use ebpf_system_monitor.StatsReporter.Table.{lookup, of_key, summary}
use ebpf_system_monitor.Http.Texts.{metrics_path, metrics_type, json_type}
use ebpf_system_monitor.Http.Server.{space, respond, build_response}
use ebpf_system_monitor.Monitor.{Monitor, http_route}
use ebpf_system_monitor.Monitor.MainLoop.{Round, main_loop}
use ebpf_system_monitor.Monitor.Pipeline.{polled, main_loop-summary}
use ebpf_system_monitor.Monitor.Routes.{is_route, respond-http_route}
use ebpf_system_monitor.Monitor.CommandLine.{default_config, parse_args, ready}
use ebpf_system_monitor.Monitor.Resources.{Platform, run_monitor}
use ebpf_system_monitor.Monitor.Resources.Proofs.{Ends, fails_late, leaked, run_monitor-Ends}

abbrev ntop : ℕ → Text
ntop ip = ascii "10.0.0." ++ to_string ip

abbrev health_path : Text
health_path = ascii "/health"

respond-http_route_example :
    respond
      (some (http_route ntop 1000 []))
      (ascii "GET" ++ (space ∷ health_path ++ (space ∷ ascii "HTTP/1.1")))
    ≡ build_response
        (if is_route health_path then 200 else 404)
        (if text_eq health_path metrics_path then metrics_type else json_type)
        (if is_route health_path then http_route ntop 1000 [] health_path else [])
respond-http_route_example =
    respond-http_route ntop 1000 [] (ascii "GET") health_path (ascii "HTTP/1.1")
      (refl, (refl, (refl, tt))) (refl, (refl, (refl, (refl, (refl, (refl, (refl, tt)))))))

abbrev event : ℕ → ℕ → TcpEvent
event action bytes = record {
  pid = 42;
  uid = 0;
  src_ip = 1;
  dst_ip = 2;
  src_port = 50000;
  dst_port = 443;
  bytes_tx = bytes;
  bytes_rx = bytes;
  timestamp_ns = 7;
  af = 2;
  action = action;
  comm = 97 ∷ 0 ∷ [];
}

abbrev rounds : List Round
rounds =
    record { signalled = false; tcp_events = event 0 0 ∷ []; audit_events = []; now = 1 }
    ∷ record { signalled = false; tcp_events = event 1 5 ∷ []; audit_events = []; now = 6000000000 }
    ∷ record { signalled = true; tcp_events = event 1 8 ∷ []; audit_events = []; now = 7000000000 }
    ∷ []

abbrev begun : Monitor
begun = record {
  g_stop = false;
  g_json = false;
  reporter = [];
  out = [];
  err = [];
  shown = [];
  last_print = 0;
}

-- Any sort will do.
abbrev unsorted : (Entry → Entry → Bool) → List Entry → List Entry
unsorted before xs = xs

main_loop-summary_example :
    lookup (key_of (event 0 0)) (main_loop ntop unsorted rounds begun).reporter
    ≡ summary (of_key (key_of (event 0 0)) (polled rounds))
main_loop-summary_example =
    main_loop-summary ntop unsorted rounds begun (key_of (event 0 0)) refl refl

-- The map of the audit's ring buffer is not found.
abbrev no_map : Platform
no_map = record {
  tcp_opened = true;
  tcp_loaded = true;
  audit_opened = true;
  audit_loaded = true;
  filters_found = true;
  connect_found = true;
  connect_attached = true;
  close_found = true;
  close_attached = true;
  audit_found = true;
  audit_attached = true;
  server_started = true;
  tcp_events_found = true;
  tcp_ring_made = true;
  syscall_events_found = false;
  audit_ring_made = true;
}

run_monitor-Ends_example :
    Ends (run_monitor no_map default_config) (fails_late no_map default_config) (leaked no_map)
run_monitor-Ends_example = run_monitor-Ends no_map default_config

waits_for_ever : (run_monitor no_map default_config).hung ≡ true
unfolding run_monitor
waits_for_ever = refl

-- 70000 - 65536
port_truncated :
    parse_args (λ arg. some 70000) (record { opt = 111; optarg = [] } ∷ []) default_config false
    ≡ ready (record default_config { http_port = 4464 }) false
unfolding parse_args
port_truncated = refl
