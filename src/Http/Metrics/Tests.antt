-- ===== src/Http/Metrics/Tests.antt =====
-- Tests of the text for Prometheus, and the theorems at concrete connections.
use ebpf_system_monitor.Base.{ℕ, ◌≡◌, refl, List, [], ◌∷◌, ◌+◌, ◌++◌, arith, Text, ascii, to_string}
use ebpf_system_monitor.Bpf.Events.{TcpEvent}
use ebpf_system_monitor.StatsReporter.{
  StatsReporter, key_eq, add_event, c_string, record_all, connection_count,
}
use ebpf_system_monitor.StatsReporter.Count.{distinct, keys}
use ebpf_system_monitor.Http.Metrics.{address, from_reporter_during}
use ebpf_system_monitor.Http.Metrics.Lines.{read_lines}
use ebpf_system_monitor.Http.Metrics.Connections.{AllPlain, head_lines, connection_lines}
use ebpf_system_monitor.Http.Metrics.Scrape.{scrape_lags}

abbrev reporter : StatsReporter
reporter =
    record {
      key = record { src_ip = 1; dst_ip = 2; src_port = 50000; dst_port = 443; pid = 42 };
      stats = record {
        comm = ascii "curl";
        uid = 0;
        bytes_tx = 5;
        bytes_rx = 6;
        connects = 1;
        timestamp = 9;
      };
    }
    ∷ []

abbrev ntop : ℕ → Text
ntop ip = ascii "10.0.0." ++ to_string ip

shown_swapped : address ntop 1 443 ≡ ascii "10.0.0.1:47873"
unfolding address to_string
shown_swapped = refl

-- A second process connects between the two.
abbrev recorded : List TcpEvent
recorded =
    record {
      timestamp_ns = 12;
      pid = 7;
      uid = 1000;
      comm = ascii "ssh";
      src_ip = 1;
      dst_ip = 3;
      src_port = 50001;
      dst_port = 22;
      af = 2;
      action = 0;
      bytes_tx = 0;
      bytes_rx = 0;
    }
    ∷ []

plain_after : AllPlain ntop (record_all recorded reporter)
unfolding record_all key_eq to_string add_event c_string
plain_after = omega arith

scrape_lags_example :
    (read_lines (from_reporter_during ntop 1000 reporter (record_all recorded reporter)) []
      ≡ head_lines ntop 1000 reporter ++ connection_lines ntop 1000 (record_all recorded reporter))
    × (connection_count (record_all recorded reporter)
        ≡ distinct (keys reporter) recorded + connection_count reporter)
scrape_lags_example = scrape_lags ntop 1000 reporter recorded plain_after

one_missing : distinct (keys reporter) recorded ≡ 1
unfolding key_eq
one_missing = refl
