-- ===== src/Bpf/TcpTracer.antt =====
-- bpf/tcp_tracer.bpf.c: connections traced through kprobes. What a helper returns in one call is in
-- `Helpers`; `slot` is the memory that `bpf_ringbuf_reserve` gives, or `none` for NULL. `events` are
-- those submitted to `tcp_events`, in order.
pub mod Pairing
pub mod Filter
mod Tests
use ebpf_system_monitor.Base.{
  ℕ, ◌+◌, ◌/◌, ◌%◌, ◌^◌, Bool, true, false, not, ◌&&◌, Option, none, some, List, [], ◌∷◌, ◌++◌,
  ◌==◌, if◌then◌else◌, u16, bswap16,
}
use ebpf_system_monitor.Bpf.Events.{Bytes, TcpEvent, tcp_action_connect, tcp_action_close}
use ebpf_system_monitor.Bpf.HashMap.{HashMap}

-- The fields of `struct sock` and `struct tcp_sock` that are read.
pub record Sock : Type 0 where
  pub skc_dport : ℕ  -- network byte order
  pub skc_rcv_saddr : ℕ
  pub skc_daddr : ℕ
  pub skc_num : ℕ
  pub bytes_sent : ℕ
  pub bytes_received : ℕ

pub record Helpers : Type 0 where
  pub pid_tgid : ℕ
  pub uid_gid : ℕ
  pub ktime_ns : ℕ
  pub comm : Bytes
  pub slot : Option TcpEvent

abbrev pub af_inet : ℕ
af_inet = 2

-- The two tests of `should_filter`, on the entry of the `filters` map, which may be missing.
abbrev pub pid_excluded : Option ℕ → ℕ → Bool
pid_excluded none pid = false
pid_excluded (some fpid) pid = not (fpid == 0) && not (fpid == pid)

abbrev pub port_excluded : Option ℕ → ℕ → Bool
port_excluded none dport = false
port_excluded (some fport) dport = not (fport == 0) && not (u16 fport == dport)

unfoldable pub should_filter : (ℕ → Option ℕ) → ℕ → ℕ → Bool
should_filter filters pid dport =
    if pid_excluded (filters 0) pid then true else port_excluded (filters 1) dport

-- `pid_tgid >> 32` as `u32`, and `uid_gid & 0xFFFFFFFF`.
abbrev pub pid_of : Helpers → ℕ
pid_of h = h.pid_tgid / 2 ^ 32 % 2 ^ 32

abbrev pub uid_of : Helpers → ℕ
uid_of h = h.uid_gid % 2 ^ 32

-- The event that `trace_tcp_connect` builds on its stack.
abbrev pub connect_event : Helpers → Sock → TcpEvent
connect_event h sk = record {
  timestamp_ns = h.ktime_ns;
  pid = pid_of h;
  uid = uid_of h;
  comm = h.comm;
  src_ip = sk.skc_rcv_saddr;
  dst_ip = sk.skc_daddr;
  src_port = sk.skc_num;
  dst_port = bswap16 sk.skc_dport;
  af = af_inet;
  action = tcp_action_connect;
  bytes_tx = 0;
  bytes_rx = 0;
}

-- `if (rbev) { *rbev = ev; bpf_ringbuf_submit(rbev, 0); }`
abbrev pub submit : Option TcpEvent → TcpEvent → List TcpEvent → List TcpEvent
submit none ev events = events
submit (some slot) ev events = events ++ (ev ∷ [])

-- The `else` of `trace_tcp_close`: the fields that it fills when no connect is pending.
abbrev pub fill : TcpEvent → Helpers → Sock → TcpEvent
fill slot h sk = record slot {
  pid = pid_of h;
  uid = uid_of h;
  af = af_inet;
  comm = h.comm;
  src_ip = sk.skc_rcv_saddr;
  dst_ip = sk.skc_daddr;
  src_port = sk.skc_num;
  dst_port = bswap16 sk.skc_dport;
}

-- What `trace_tcp_close` then sets in either case.
abbrev pub close_event : TcpEvent → Helpers → Sock → TcpEvent
close_event ev h sk = record ev {
  timestamp_ns = h.ktime_ns;
  action = tcp_action_close;
  bytes_tx = sk.bytes_sent;
  bytes_rx = sk.bytes_received;
}

module _ (maps : HashMap TcpEvent) where
  open maps use {Map, lookup, update, delete}

  pub record Tracer : Type 0 where
    pub pending_connects : Map
    pub filters : ℕ → Option ℕ
    pub events : List TcpEvent

  unfoldable pub trace_tcp_connect : Helpers → Sock → Tracer → Tracer
  unfolding should_filter
  trace_tcp_connect h sk t =
      let dport = bswap16 sk.skc_dport in
      if should_filter t.filters (pid_of h) dport then t else record t {
        pending_connects = (update t.pending_connects (pid_of h) (connect_event h sk)).1;
        events = submit h.slot (connect_event h sk) t.events;
      }

  -- The rest of `trace_tcp_close`, with the memory reserved.
  unfoldable pub close_into : TcpEvent → Option TcpEvent → Helpers → Sock → Tracer → Tracer
  close_into slot none h sk t = record t {
    events = t.events ++ (close_event (fill slot h sk) h sk ∷ []);
  }
  close_into slot (some pending) h sk t = record t {
    pending_connects = delete t.pending_connects (pid_of h);
    events = t.events ++ (close_event pending h sk ∷ []);
  }

  unfoldable pub trace_tcp_close : Helpers → Sock → Tracer → Tracer
  unfolding close_into
  trace_tcp_close h sk t = elim h.slot [
    | none ↦ t
    | some slot ↦ close_into slot (lookup t.pending_connects (pid_of h)) h sk t
  ]

-- One hook call.
pub data Hook : Type 0 where
  connects : Helpers → Sock → Hook
  closes : Helpers → Sock → Hook

unfoldable pub trace : (maps : HashMap TcpEvent) → Hook → Tracer maps → Tracer maps
trace maps (connects h sk) t = trace_tcp_connect maps h sk t
trace maps (closes h sk) t = trace_tcp_close maps h sk t

unfoldable pub trace_all : (maps : HashMap TcpEvent) → List Hook → Tracer maps → Tracer maps
unfolding trace
trace_all maps [] t = t
trace_all maps (k ∷ ks) t = trace_all maps ks (trace maps k t)
