-- ===== src/Monitor/Json/Recorded.antt =====
-- The text of /connections for the events that the callbacks have recorded.
use ebpf_system_monitor.Base.{
  ℕ, ◌<◌, ◌^◌, ◌≡◌, inl, inr, some, List, [], ◌∷◌, ◌==◌, arith, Bool-cases, Text,
}
use ebpf_system_monitor.Bpf.Events.{TcpEvent, tcp_action_connect}
use ebpf_system_monitor.StatsReporter.{
  ConnectionKey, ConnectionStats, key_eq, key_of, c_string, no_stats, add_event, StatsReporter,
  record_event, record_all,
}
use ebpf_system_monitor.Monitor.{connections_text}
use ebpf_system_monitor.Monitor.Json.{array, no_elements, read_json}
use ebpf_system_monitor.Monitor.Json.Characters.{IsQuotable}
use ebpf_system_monitor.Monitor.Json.Connections.{
  IsShown, AllShown, values_after, read_json-connections_text,
}

module _ (inet_ntop : ℕ → Text) where
  -- The name of the process and the addresses may stand between quotes; the process has 32 bits.
  abbrev pub IsNamed : TcpEvent → Type 0
  IsNamed ev =
      IsQuotable (c_string 16 ev.comm)
      × IsQuotable (inet_ntop ev.src_ip)
      × IsQuotable (inet_ntop ev.dst_ip)
      × (ev.pid < 2 ^ 32)

  abbrev pub AllNamed : List TcpEvent → Type 0
  AllNamed [] = Unit {0}
  AllNamed (ev ∷ evs) = IsNamed ev × AllNamed evs

  add_event-IsShown :
      (k : ConnectionKey) (ev : TcpEvent) (s : ConnectionStats)
      → IsQuotable (inet_ntop k.src_ip)
      → IsQuotable (inet_ntop k.dst_ip)
      → k.pid < 2 ^ 64
      → IsQuotable (c_string 16 ev.comm)
      → s.bytes_tx < 2 ^ 64
      → s.bytes_rx < 2 ^ 64
      → s.connects < 2 ^ 64
      → IsShown inet_ntop k (add_event ev s)
  unfolding add_event
  add_event-IsShown k ev s src dst pid comm tx rx connects =
      elim (Bool-cases (ev.action == tcp_action_connect)) [
        | inl connect ↦ rw connect (comm, src, dst, pid, tx, rx, omega arith)
        | inr other ↦ rw other (comm, src, dst, pid, omega arith, omega arith, connects)
      ]

  record_event-AllShown :
      (ev : TcpEvent) (r : StatsReporter)
      → IsNamed ev
      → AllShown inet_ntop r
      → AllShown inet_ntop (record_event ev r)
  unfolding record_event
  record_event-AllShown ev [] (comm, src, dst, pid) h = (
    add_event-IsShown (key_of ev) ev no_stats src dst (omega arith) comm (omega arith) (omega arith)
        (omega arith),
    tt,
  )
  record_event-AllShown ev (e ∷ es) (comm, src, dst, pid)
        ((comm', src', dst', pid', tx, rx, cs), h) =
      elim (Bool-cases (key_eq e.key (key_of ev))) [
        | inl same ↦ rw same (add_event-IsShown e.key ev e.stats src' dst' pid' comm tx rx cs, h)
        | inr other ↦ rw other (
          (comm', src', dst', pid', tx, rx, cs),
          record_event-AllShown ev es (comm, src, dst, pid) h,
        )
      ]

  record_all-AllShown :
      (evs : List TcpEvent) (r : StatsReporter)
      → AllNamed evs
      → AllShown inet_ntop r
      → AllShown inet_ntop (record_all evs r)
  unfolding record_all
  record_all-AllShown [] r named h = h
  record_all-AllShown (ev ∷ evs) r named h =
      record_all-AllShown evs (record_event ev r) named.1 (record_event-AllShown ev r named.0 h)

  -- If no name of a process of the recorded events and no address has a quote, a backslash or a
  -- control character, and the numbers of the processes have 32 bits, the text of /connections is JSON: an array with an object for each connection
  -- of the table, whose members are its name, process, addresses with the swapped ports, and
  -- counters.
  pub read_json-record_all :
      (evs : List TcpEvent)
      → AllNamed evs
      → read_json (connections_text inet_ntop (record_all evs []))
        ≡ some (array (values_after inet_ntop no_elements (record_all evs [])))
  read_json-record_all evs named =
      read_json-connections_text inet_ntop (record_all evs []) (record_all-AllShown evs [] named tt)
