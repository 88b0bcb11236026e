-- ===== src/StatsReporter/Table.antt =====
-- What the table holds after any events.
use ebpf_system_monitor.Base.{
  ℕ, ◌+◌, ◌%◌, ◌^◌, ◌<◌, ◌≡◌, refl, ◌∙◌, ap, inl, inr, Bool, true, Option, none, some, List, [],
  ◌∷◌, ◌==◌, if◌then◌else◌, arith, Bool-cases,
}
use ebpf_system_monitor.Bpf.Events.{TcpEvent, tcp_action_connect}
use ebpf_system_monitor.StatsReporter.{
  ConnectionKey, key_eq, ConnectionStats, no_stats, c_string, key_of, add_event, StatsReporter,
  record_event, record_all,
}

pub key_eq_sound : (k o : ConnectionKey) → key_eq k o ≡ true → k ≡ o
unfolding key_eq
key_eq_sound k o h = ground arith

pub key_eq_self : (k : ConnectionKey) → key_eq k k ≡ true
unfolding key_eq
key_eq_self k = ground arith

-- The entry of a key.
abbrev pub lookup : ConnectionKey → StatsReporter → Option ConnectionStats
lookup k [] = none
lookup k (e ∷ es) = if key_eq e.key k then some e.stats else lookup k es

-- The events of a connection.
abbrev pub of_key : ConnectionKey → List TcpEvent → List TcpEvent
of_key k [] = []
of_key k (ev ∷ evs) = if key_eq (key_of ev) k then ev ∷ of_key k evs else of_key k evs

abbrev pub is_connect : TcpEvent → Bool
is_connect ev = ev.action == tcp_action_connect

abbrev pub connects_in : List TcpEvent → ℕ
connects_in [] = 0
connects_in (ev ∷ evs) = (if is_connect ev then 1 else 0) + connects_in evs

-- A sum over the events that are not connects.
abbrev pub sum_of : (TcpEvent → ℕ) → List TcpEvent → ℕ
sum_of f [] = 0
sum_of f (ev ∷ evs) = (if is_connect ev then 0 else f ev) + sum_of f evs

abbrev pub last_of : TcpEvent → List TcpEvent → TcpEvent
last_of ev [] = ev
last_of ev (ev' ∷ evs) = last_of ev' evs

-- The entry that the events of a connection call for.
abbrev pub summary : List TcpEvent → Option ConnectionStats
summary [] = none
summary (ev ∷ evs) = some (record {
  comm = c_string 16 (last_of ev evs).comm;
  uid = (last_of ev evs).uid;
  bytes_tx = sum_of (λ e. e.bytes_tx) (ev ∷ evs) % 2 ^ 64;
  bytes_rx = sum_of (λ e. e.bytes_rx) (ev ∷ evs) % 2 ^ 64;
  connects = connects_in (ev ∷ evs) % 2 ^ 64;
  timestamp = (last_of ev evs).timestamp_ns;
})

-- An entry, or none, after more events of its connection.
abbrev pub or_no_stats : Option ConnectionStats → ConnectionStats
or_no_stats none = no_stats
or_no_stats (some s) = s

abbrev extended : Option ConnectionStats → List TcpEvent → Option ConnectionStats
extended o [] = o
extended o (ev ∷ evs) = extended (some (add_event ev (or_no_stats o))) evs

pub lookup-record_event :
    (k : ConnectionKey) (ev : TcpEvent) (r : StatsReporter)
    → lookup k (record_event ev r) ≡ (
        if key_eq (key_of ev) k then some (add_event ev (or_no_stats (lookup k r))) else lookup k r)
unfolding record_event
lookup-record_event k ev [] = refl
lookup-record_event k ev (e ∷ es) = ground (
  arith,
  lookup-record_event k ev es,
  key_eq_sound e.key (key_of ev),
  key_eq_sound e.key k,
  key_eq_sound (key_of ev) k,
  key_eq_self k,
)

lookup-record_all :
    (k : ConnectionKey) (evs : List TcpEvent) (r : StatsReporter)
    → lookup k (record_all evs r) ≡ extended (lookup k r) (of_key k evs)
unfolding record_all
lookup-record_all k [] r = refl
lookup-record_all k (ev ∷ evs) r =
    lookup-record_all k evs (record_event ev r)
    ∙ ap (λ o. extended o (of_key k evs)) (lookup-record_event k ev r)
    ∙ elim (Bool-cases (key_eq (key_of ev) k)) [ inl here ↦ rw here | inr elsewhere ↦ rw elsewhere ]

extended_lem :
    (s : ConnectionStats) (ev : TcpEvent) (evs : List TcpEvent)
    → s.bytes_tx < 2 ^ 64
    → s.bytes_rx < 2 ^ 64
    → s.connects < 2 ^ 64
    → extended (some s) (ev ∷ evs)
      ≡ some (record {
        comm = c_string 16 (last_of ev evs).comm;
        uid = (last_of ev evs).uid;
        bytes_tx = (s.bytes_tx + sum_of (λ e. e.bytes_tx) (ev ∷ evs)) % 2 ^ 64;
        bytes_rx = (s.bytes_rx + sum_of (λ e. e.bytes_rx) (ev ∷ evs)) % 2 ^ 64;
        connects = (s.connects + connects_in (ev ∷ evs)) % 2 ^ 64;
        timestamp = (last_of ev evs).timestamp_ns;
      })
unfolding add_event
extended_lem s ev [] tx rx c = ground arith
extended_lem s ev (ev' ∷ evs) tx rx c = ground (arith, extended_lem (add_event ev s) ev' evs)

-- From an empty table, the entry of each connection is what its own events call for: none if it has
-- none; otherwise the number of its connects, the sums of the bytes of the others, modulo 2 ^ 64,
-- and the user, the name and the time of its last event.
pub record_all-summary :
    (k : ConnectionKey) (evs : List TcpEvent)
    → lookup k (record_all evs []) ≡ summary (of_key k evs)
record_all-summary k evs = lookup-record_all k evs [] ∙ summed (of_key k evs)
  where
    summed : (evs : List TcpEvent) → extended none evs ≡ summary evs
    summed [] = refl
    summed (ev ∷ evs) = ground (arith, extended_lem no_stats ev evs)
