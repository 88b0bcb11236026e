-- ===== src/Monitor/Filters/Tests.antt =====
-- The options of a process and a port, from the array to the events.
use ebpf_system_monitor.Base.{
  ℕ, ◌*◌, ◌^◌, ◌≡◌, ◌≢◌, refl, ap, Option, true, false, if◌then◌else◌, arith, some, none, List, [],
  ◌∷◌, ◌==◌, ◌∙◌, sym,
}
use ebpf_system_monitor.Bpf.Events.{TcpEvent}
use ebpf_system_monitor.Bpf.HashMap.{function_map}
use ebpf_system_monitor.Bpf.TcpTracer.{Sock, Helpers, Tracer, Hook, connects, closes, trace_all}
use ebpf_system_monitor.Monitor.CommandLine.{Config}
use ebpf_system_monitor.Monitor.Filters.{FilterMap, IsUpdate, set_filters}
use ebpf_system_monitor.Monitor.Filters.Proofs.{AllRequested, trace_all-AllRequested}

-- An update that never fails.
abbrev put_at : (ℕ → Option ℕ) → ℕ → ℕ → ℕ → Option ℕ
put_at vs idx val j = if j == idx then some val else vs j

abbrev update : (ℕ → Option ℕ) → ℕ → ℕ → Option (ℕ → Option ℕ)
update vs idx val = some (put_at vs idx val)

is_at : (idx : ℕ) → (idx == idx) ≡ true
is_at idx = ground arith

not_at : (j idx : ℕ) → j ≢ idx → (j == idx) ≡ false
not_at j idx ne = ground arith

got : {f g : ℕ → Option ℕ} → some f ≡ some g → f ≡ g
got e = cc

update-IsUpdate : IsUpdate update
update-IsUpdate = record {
  sets = λ vs vs' idx val e.
      ap (λ f. f idx) (sym (got e)) ∙ ap (λ b. if b then some val else vs idx) (is_at idx);
  keeps = λ vs vs' idx val j e ne.
      ap (λ f. f j) (sym (got e)) ∙ ap (λ b. if b then some val else vs j) (not_at j idx ne);
}

abbrev zeros : FilterMap
zeros = record { values = λ _. some 0; warnings = 0 }

abbrev web_of_7 : Config
web_of_7 = record { filter_pid = 7; filter_port = 443; http_port = 9090 }

abbrev memory : TcpEvent
memory = record {
  timestamp_ns = 0;
  pid = 0;
  uid = 0;
  comm = [];
  src_ip = 0;
  dst_ip = 0;
  src_port = 0;
  dst_port = 0;
  af = 0;
  action = 0;
  bytes_tx = 0;
  bytes_rx = 0;
}

abbrev process : ℕ → Helpers
process pid = record {
  pid_tgid = pid * 2 ^ 32;
  uid_gid = 0;
  ktime_ns = 1;
  comm = [];
  slot = some memory;
}

-- To port 443.
abbrev https : Sock
https = record {
  skc_dport = 0xbb01;
  skc_rcv_saddr = 1;
  skc_daddr = 2;
  skc_num = 5000;
  bytes_sent = 10;
  bytes_received = 20;
}

abbrev hooks : List Hook
hooks = connects (process 7) https ∷ connects (process 8) https ∷ closes (process 7) https ∷ []

abbrev tracer : Tracer (function_map TcpEvent)
tracer = record {
  pending_connects = λ _. none;
  filters = (set_filters update web_of_7 zeros).values;
  events = [];
}

trace_all-AllRequested_example :
    AllRequested web_of_7 (trace_all (function_map TcpEvent) hooks tracer).events
unfolding set_filters
trace_all-AllRequested_example =
    trace_all-AllRequested update update-IsUpdate (function_map TcpEvent) web_of_7 zeros hooks
      tracer refl refl refl refl refl
