-- ===== src/Monitor/Json/Tests.antt =====
-- Tests of the reader, and the theorems at a concrete connection and event.
use ebpf_system_monitor.Base.{
  ℕ, ◌≡◌, refl, Bool, true, false, List, none, some, [], ◌∷◌, ◌++◌, arith, Text, ascii, to_string,
}
use ebpf_system_monitor.Bpf.Events.{TcpEvent}
use ebpf_system_monitor.StatsReporter.{Entry, StatsReporter, for_each, c_string}
use ebpf_system_monitor.Monitor.{Monitor, connection_json, connections_text, json_line, http_route}
use ebpf_system_monitor.Monitor.Json.{
  number, array, no_elements, and_element, object, no_members, read_json,
}
use ebpf_system_monitor.Monitor.Json.Connections.{values_after}
use ebpf_system_monitor.Monitor.Json.Recorded.{AllNamed}
use ebpf_system_monitor.Monitor.Json.Served.{connections_path, respond-main_loop}
use ebpf_system_monitor.Monitor.MainLoop.{Round, main_loop}
use ebpf_system_monitor.Monitor.Pipeline.{polled}
use ebpf_system_monitor.Http.Texts.{json_type}
use ebpf_system_monitor.Http.Server.{space, respond, build_response}
use ebpf_system_monitor.Monitor.Json.Events.{event_value, IsPrintable, read_json-json_line}

abbrev named : Text → StatsReporter
named comm =
    record {
      key = record { src_ip = 1; dst_ip = 2; src_port = 50000; dst_port = 443; pid = 42 };
      stats = record {
        comm = comm;
        uid = 0;
        bytes_tx = 5;
        bytes_rx = 6;
        connects = 1;
        timestamp = 9;
      };
    }
    ∷ []

abbrev ntop : ℕ → Text
ntop ip = ascii "10.0.0." ++ to_string ip

-- The name of a process may be anything.
quote_breaks : read_json (connections_text ntop (named (ascii "a\"b"))) ≡ none
unfolding connections_text read_json to_string for_each connection_json
quote_breaks = refl

abbrev event : TcpEvent
event = record {
  pid = 42;
  uid = 0;
  src_ip = 1;
  dst_ip = 2;
  src_port = 50000;
  dst_port = 443;
  bytes_tx = 5;
  bytes_rx = 6;
  timestamp_ns = 7;
  af = 2;
  action = 1;
  comm = 97 ∷ 0 ∷ [];
}

event-IsPrintable : IsPrintable ntop (ascii "a") event
unfolding to_string
event-IsPrintable = ground arith

read_json-json_line_example :
    (line : Text) × (json_line ntop event ≡ some line)
    × (read_json line ≡ some (event_value ntop (ascii "a") event))
read_json-json_line_example = read_json-json_line ntop event (ascii "a") [] refl event-IsPrintable

-- All 16 bytes of the name are used: `%s` reads on.
abbrev unterminated : TcpEvent
unterminated = record event { comm = ascii "abcdefghijklmnop" }

not_printed : json_line ntop unterminated ≡ none
unfolding json_line
not_printed = refl

reads_array :
    read_json (ascii "[ 1, [], {} ]")
    ≡ some (
        array (
          and_element
            (and_element (and_element no_elements (number 1)) (array no_elements))
            (object no_members)))
unfolding read_json
reads_array = refl

refuses_leading_zero : read_json (ascii "[01]") ≡ none
unfolding read_json
refuses_leading_zero = refl

refuses_last_comma : read_json (ascii "[1,]") ≡ none
unfolding read_json
refuses_last_comma = refl

-- A round before the signal, and one after it.
abbrev rounds : List Round
rounds =
    record { signalled = false; tcp_events = event ∷ []; audit_events = []; now = 1 }
    ∷ record { signalled = true; tcp_events = event ∷ []; audit_events = []; now = 2 }
    ∷ []

abbrev begun : Monitor
begun = record {
  g_stop = false;
  g_json = true;
  reporter = [];
  out = [];
  err = [];
  shown = [];
  last_print = 0;
}

-- Any sort will do.
abbrev unsorted : (Entry → Entry → Bool) → List Entry → List Entry
unsorted before xs = xs

all_named : AllNamed ntop (polled rounds)
unfolding to_string c_string
all_named = ground arith

respond-main_loop_example :
    let table = (main_loop ntop unsorted rounds begun).reporter in
    (respond
        (some (http_route ntop 3 table))
        (ascii "GET" ++ (space ∷ connections_path ++ (space ∷ ascii "HTTP/1.1")))
      ≡ build_response 200 json_type (connections_text ntop table))
    × (read_json (connections_text ntop table) ≡ some (array (values_after ntop no_elements table)))
respond-main_loop_example =
    respond-main_loop ntop unsorted rounds begun 3 (ascii "GET") (ascii "HTTP/1.1") refl refl
      all_named (ground arith)
