-- ===== src/Monitor.antt =====
-- src/monitor.cpp: the command line, the callbacks of the ring buffers, the routes of the HTTP server and
-- the main loop. Text that the program writes is a value; `inet_ntop`, `getopt_long` and
-- `std::stoul` are inputs.
pub mod Routes
pub mod MainLoop
pub mod CommandLine
pub mod Pipeline
pub mod Resources
pub mod Filters
pub mod Json
mod Tests
use mathlib.Core.Option
use ebpf_system_monitor.Base.{
  ℕ, zero, suc, ◌+◌, ◌-◌, ◌*◌, ◌%◌, ◌^◌, ◌/◌, Bool, true, false, not, ◌&&◌, Option, none, some,
  List, [], ◌∷◌, ◌++◌, ◌==◌, leb, if◌then◌else◌, Text, concat, ascii, to_string, text_eq, bswap16,
}
use ebpf_system_monitor.Bpf.Events.{Bytes, TcpEvent, SyscallEvent}
use ebpf_system_monitor.StatsReporter.{
  ConnectionKey, ConnectionStats, Entry, StatsReporter, record_event, for_each, print_top,
}
use ebpf_system_monitor.Http.Metrics

-- What run_monitor and its callbacks share and write.
pub record Monitor : Type 0 where
  pub g_stop : Bool
  pub g_json : Bool
  pub reporter : StatsReporter
  pub out : List (Option Text)  -- lines for stdout; `none` is one that `%s` reads past `comm` for
  pub err : List (Option Text)  -- lines for stderr, likewise
  pub shown : List (List Entry)  -- the tables that were printed
  pub last_print : ℕ  -- nanoseconds

unfoldable pub on_signal : Monitor → Monitor
on_signal m = record m { g_stop = true }

-- `%s` of a `char` array: the bytes before the first NUL. Without one `printf` reads on past the end of
-- the array: `none`.
unfoldable pub percent_s : Bytes → Option Text
percent_s [] = none
percent_s (b ∷ s) = let rest = percent_s s in if b == 0 then some [] else Option.map (◌∷◌ b) rest

module _ (inet_ntop : ℕ → Text) where
  -- What is printed for an event, in its parts, with what `%s` gives for the name.
  unfoldable pub line_pieces : Text → TcpEvent → List Text
  line_pieces comm ev =
      ascii "{\"ts\":"
      ∷ to_string ev.timestamp_ns
      ∷ ascii ",\"pid\":"
      ∷ to_string ev.pid
      ∷ ascii ",\"comm\":\""
      ∷ comm
      ∷ ascii "\",\"src\":\""
      ∷ inet_ntop ev.src_ip
      ∷ ascii ":"
      ∷ to_string ev.src_port
      ∷ ascii "\",\"dst\":\""
      ∷ inet_ntop ev.dst_ip
      ∷ ascii ":"
      ∷ to_string ev.dst_port
      ∷ ascii "\",\"action\":"
      ∷ to_string ev.action
      ∷ ascii ",\"tx\":"
      ∷ to_string ev.bytes_tx
      ∷ ascii ",\"rx\":"
      ∷ to_string ev.bytes_rx
      ∷ ascii "}\n"
      ∷ []

  -- One JSON line of an event.
  unfoldable pub json_line : TcpEvent → Option Text
  unfolding line_pieces percent_s
  json_line ev = Option.map (λ comm. concat (line_pieces comm ev)) (percent_s ev.comm)

  unfoldable pub handle_tcp_event : TcpEvent → Monitor → Monitor
  handle_tcp_event ev m =
      let m' = record m { reporter = record_event ev m.reporter } in
      if m.g_json then record m' { out = m'.out ++ (json_line ev ∷ []) } else m'

  -- What is written for one connection, in its parts.
  unfoldable pub connection_pieces : ConnectionKey → ConnectionStats → List Text
  connection_pieces k s =
      ascii "{\"comm\":\""
      ∷ s.comm
      ∷ ascii "\",\"pid\":"
      ∷ to_string k.pid
      ∷ ascii ",\"src\":\""
      ∷ inet_ntop k.src_ip
      ∷ ascii ":"
      ∷ to_string (bswap16 k.src_port)
      ∷ ascii "\",\"dst\":\""
      ∷ inet_ntop k.dst_ip
      ∷ ascii ":"
      ∷ to_string (bswap16 k.dst_port)
      ∷ ascii "\",\"tx\":"
      ∷ to_string s.bytes_tx
      ∷ ascii ",\"rx\":"
      ∷ to_string s.bytes_rx
      ∷ ascii ",\"connects\":"
      ∷ to_string s.connects
      ∷ ascii "}"
      ∷ []

  -- One object of /connections.
  unfoldable pub connection_json : ConnectionKey → ConnectionStats → Text
  unfolding connection_pieces
  connection_json k s = concat (connection_pieces k s)

  -- What the callback keeps: `first`, and the text so far.
  pub record Listing : Type 0 where
    pub first : Bool
    pub text : Text

  unfoldable pub add_connection : ConnectionKey → ConnectionStats → Listing → Listing
  add_connection k s l = record {
    first = false;
    text = (if l.first then l.text else l.text ++ (44 ∷ [])) ++ connection_json k s;
  }

  unfoldable pub connections_text : StatsReporter → Text
  unfolding add_connection
  connections_text reporter =
      (for_each add_connection reporter (record { first = true; text = 91 ∷ [] })).text ++ (93 ∷ [])

  -- `now_ms` is the time in from_reporter.
  unfoldable pub http_route : ℕ → StatsReporter → Text → Text
  unfolding connections_text
  http_route now_ms reporter path =
      if text_eq path (ascii "/metrics")
      then Metrics.from_reporter inet_ntop now_ms reporter
      else if text_eq path (ascii "/connections")
      then connections_text reporter
      else if text_eq path (ascii "/health")
      then ascii "{\"status\":\"ok\"}"
      else []

-- `syscall_nr` is not negative.
unfoldable pub audit_line : SyscallEvent → Option Text
unfolding percent_s
audit_line ev =
    Option.map
      (λ comm. concat (
        ascii "[AUDIT] ts="
        ∷ to_string ev.timestamp_ns
        ∷ ascii " pid="
        ∷ to_string ev.pid
        ∷ ascii " uid="
        ∷ to_string ev.uid
        ∷ ascii " comm="
        ∷ comm
        ∷ ascii " syscall="
        ∷ to_string ev.syscall_nr
        ∷ ascii "\n"
        ∷ []))
      (percent_s ev.comm)

unfoldable pub handle_syscall_event : SyscallEvent → Monitor → Monitor
unfolding audit_line
handle_syscall_event ev m = record m { err = m.err ++ (audit_line ev ∷ []) }
