-- ===== src/StatsReporter.antt =====
-- src/stats_reporter.h: the table of connections. The `unordered_map` is an association list with a
-- new key at the end: the order in which it is walked is one that the library may choose. The mutex
-- makes each operation one step.
pub mod Table
pub mod Count
pub mod Top
pub mod Format
mod Tests
use ebpf_system_monitor.Base.{
  ℕ, zero, suc, ◌+◌, ◌*◌, ◌/◌, ◌%◌, ◌^◌, Bool, true, false, not, ◌&&◌, Option, none, some, List, [],
  ◌∷◌, ◌++◌, ◌==◌, ltb, leb, if◌then◌else◌, add64, length, take,
}
use ebpf_system_monitor.Bpf.Events.{Bytes, TcpEvent, tcp_action_connect}

pub record ConnectionKey : Type 0 where
  pub src_ip : ℕ
  pub dst_ip : ℕ
  pub src_port : ℕ
  pub dst_port : ℕ
  pub pid : ℕ

-- `operator==`
unfoldable pub key_eq : ConnectionKey → ConnectionKey → Bool
key_eq k o =
    k.src_ip == o.src_ip
    && (k.dst_ip == o.dst_ip
        && (k.src_port == o.src_port && (k.dst_port == o.dst_port && k.pid == o.pid)))

pub record ConnectionStats : Type 0 where
  pub comm : Bytes
  pub uid : ℕ
  pub bytes_tx : ℕ
  pub bytes_rx : ℕ
  pub connects : ℕ
  pub timestamp : ℕ

-- A value-initialised `ConnectionStats`.
abbrev pub no_stats : ConnectionStats
no_stats = record { comm = []; uid = 0; bytes_tx = 0; bytes_rx = 0; connects = 0; timestamp = 0 }

-- `std::string(s, strnlen(s, n))`: up to the first 0, `n` bytes at most.
unfoldable pub c_string : ℕ → Bytes → Bytes
c_string zero s = []
c_string (suc n) [] = []
c_string (suc n) (b ∷ s) = if b == 0 then [] else b ∷ c_string n s

abbrev pub key_of : TcpEvent → ConnectionKey
key_of ev = record {
  src_ip = ev.src_ip;
  dst_ip = ev.dst_ip;
  src_port = ev.src_port;
  dst_port = ev.dst_port;
  pid = ev.pid;
}

-- What `record` does to the entry of the event.
unfoldable pub add_event : TcpEvent → ConnectionStats → ConnectionStats
add_event ev s =
    let s' = record s { comm = c_string 16 ev.comm; uid = ev.uid; timestamp = ev.timestamp_ns } in
    if ev.action == tcp_action_connect
    then record s' { connects = add64 s.connects 1 }
    else record s' {
      bytes_tx = add64 s.bytes_tx ev.bytes_tx;
      bytes_rx = add64 s.bytes_rx ev.bytes_rx;
    }

pub record Entry : Type 0 where
  pub key : ConnectionKey
  pub stats : ConnectionStats

abbrev pub StatsReporter : Type 0
StatsReporter = List Entry

-- `record`, whose name is taken: `stats_[key]` adds an empty entry for a new key.
unfoldable pub record_event : TcpEvent → StatsReporter → StatsReporter
record_event ev [] = record { key = key_of ev; stats = add_event ev no_stats } ∷ []
record_event ev (e ∷ es) =
    let rest = record_event ev es in
    if key_eq e.key (key_of ev) then record e { stats = add_event ev e.stats } ∷ es else e ∷ rest

unfoldable pub record_all : List TcpEvent → StatsReporter → StatsReporter
unfolding record_event
record_all [] r = r
record_all (ev ∷ evs) r = record_all evs (record_event ev r)

unfoldable pub connection_count : StatsReporter → ℕ
connection_count r = length r

unfoldable pub clear : StatsReporter → StatsReporter
clear r = []

-- The callback, with what it keeps.
unfoldable pub for_each {ℓ} :
    {S : Type ℓ} → (ConnectionKey → ConnectionStats → S → S) → StatsReporter → S → S
for_each fn [] s = s
for_each fn (e ∷ es) s = for_each fn es (fn e.key e.stats s)

-- The comparison that `print_top` sorts by.
unfoldable pub by_traffic : Entry → Entry → Bool
by_traffic a b =
    ltb (add64 b.stats.bytes_tx b.stats.bytes_rx) (add64 a.stats.bytes_tx a.stats.bytes_rx)

-- The rows of `print_top`, for `n` not negative (for a negative one there are none, as for 0).
unfoldable pub print_top :
    ((Entry → Entry → Bool) → List Entry → List Entry) → ℕ → StatsReporter → List Entry
unfolding by_traffic
print_top sort n r = take n (sort by_traffic r)
