-- ===== src/Bpf/TcpTracer/Tests.antt =====
-- Tests of the tracer, and the theorems at concrete inputs.
use ebpf_system_monitor.Base.{
  ℕ, ◌+◌, ◌*◌, ◌^◌, ◌≡◌, refl, some, none, List, [], ◌∷◌, ◌++◌, bswap16, arith,
}
use ebpf_system_monitor.Bpf.Events.{TcpEvent}
use ebpf_system_monitor.Bpf.HashMap.{function_map}
use ebpf_system_monitor.Bpf.TcpTracer.{
  Sock, Helpers, Tracer, Hook, connects, closes, connect_event, should_filter, trace, trace_all,
}
use ebpf_system_monitor.Bpf.TcpTracer.Pairing.{
  IsTraced, connect_seen, close_seen, close-connect, close_misattributes,
}

abbrev memory : TcpEvent
memory = record {
  timestamp_ns = 0;
  pid = 0;
  uid = 0;
  comm = [];
  src_ip = 0;
  dst_ip = 0;
  src_port = 0;
  dst_port = 0;
  af = 0;
  action = 0;
  bytes_tx = 0;
  bytes_rx = 0;
}

-- Process 7.
abbrev helpers : ℕ → Helpers
helpers now = record {
  pid_tgid = 7 * 2 ^ 32 + 9;
  uid_gid = 1000;
  ktime_ns = now;
  comm = 99 ∷ 0 ∷ [];
  slot = some memory;
}

abbrev other_process : Helpers
other_process = record (helpers 3) { pid_tgid = 8 * 2 ^ 32 + 8 }

-- To port 443, which is 0x01bb, and 0xbb01 in network order.
abbrev https : Sock
https = record {
  skc_dport = 0xbb01;
  skc_rcv_saddr = 1;
  skc_daddr = 2;
  skc_num = 5000;
  bytes_sent = 10;
  bytes_received = 20;
}

abbrev ssh : Sock
ssh = record {
  skc_dport = 0x1600;
  skc_rcv_saddr = 1;
  skc_daddr = 3;
  skc_num = 5001;
  bytes_sent = 30;
  bytes_received = 40;
}

abbrev all_filters : Tracer (function_map TcpEvent)
all_filters = record { pending_connects = λ _. none; filters = λ _. some 0; events = [] }

abbrev only_pid_8 : Tracer (function_map TcpEvent)
only_pid_8 = record all_filters { filters = λ _. some 8 }

https_port : (connect_event (helpers 1) https).dst_port ≡ 443
https_port = refl

https-IsTraced : IsTraced (function_map TcpEvent) all_filters (helpers 1) https
unfolding should_filter
https-IsTraced = record { passes = refl; kept = refl }

-- The socket at its close.
abbrev https_done : Sock
https_done = record https { bytes_sent = 700; bytes_received = 9000 }

-- Process 8 connects and closes in between.
abbrev others : List Hook
others = connects other_process ssh ∷ closes other_process ssh ∷ []

close-connect_example :
    let begun = trace_all (function_map TcpEvent) (connects (helpers 1) https ∷ []) all_filters in
    let before = trace_all (function_map TcpEvent) others begun in
    let after =
      trace_all
        (function_map TcpEvent)
        (connects (helpers 1) https ∷ others ++ (closes (helpers 2) https_done ∷ []))
        all_filters in
    (begun.events ≡ [] ++ (connect_seen (helpers 1) https ∷ []))
    × (after.events ≡ before.events ++ (close_seen (helpers 1) (helpers 2) https https_done ∷ []))
    × (after.pending_connects 7 ≡ none)
close-connect_example =
    close-connect (function_map TcpEvent) (helpers 1) (helpers 2) https https_done others
      all_filters memory memory https-IsTraced refl refl refl (omega arith)

-- `ssh` is closed while `https` is pending.
close_misattributes_example :
    let t =
      trace_all
        (function_map TcpEvent)
        (connects (helpers 1) https ∷ closes (helpers 2) ssh ∷ [])
        all_filters in
    (ev : TcpEvent) × (t.events
      ≡ (trace (function_map TcpEvent) (connects (helpers 1) https) all_filters).events
        ++ (ev ∷ []))
    × (ev.src_ip ≡ 1)
    × (ev.dst_ip ≡ 2)
    × (ev.src_port ≡ 5000)
    × (ev.dst_port ≡ bswap16 0xbb01)
    × (ev.bytes_tx ≡ 30)
    × (ev.bytes_rx ≡ 40)
close_misattributes_example =
    close_misattributes (function_map TcpEvent) (helpers 1) (helpers 2) ssh https all_filters memory
      https-IsTraced refl refl
