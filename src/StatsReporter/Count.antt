-- ===== src/StatsReporter/Count.antt =====
-- How many entries the table has.
use ebpf_system_monitor.Base.{
  ℕ, ◌+◌, ◌≡◌, refl, ◌∙◌, ap, inl, inr, Bool, true, false, ◌||◌, none, some, List, [], ◌∷◌,
  if◌then◌else◌, arith, Bool-cases, length,
}
use ebpf_system_monitor.Bpf.Events.{TcpEvent}
use ebpf_system_monitor.StatsReporter.{
  ConnectionKey, key_eq, key_of, StatsReporter, record_event, record_all, connection_count,
}
use ebpf_system_monitor.StatsReporter.Table.{lookup, lookup-record_event, key_eq_sound, key_eq_self}

-- Each key has one entry.
abbrev pub HasOneEach : StatsReporter → Type 0
HasOneEach [] = Unit {0}
HasOneEach (e ∷ es) = (lookup e.key es ≡ none) × HasOneEach es

record_event-HasOneEach :
    (ev : TcpEvent) (r : StatsReporter) → HasOneEach r → HasOneEach (record_event ev r)
unfolding record_event
record_event-HasOneEach ev [] one = (refl, tt)
record_event-HasOneEach ev (e ∷ es) one = elim (Bool-cases (key_eq e.key (key_of ev))) [
  | inl same ↦ rw same one
  | inr other ↦ rw other (
    ground (
      arith,
      one.0,
      lookup-record_event e.key ev es,
      key_eq_sound (key_of ev) e.key,
      key_eq_self e.key,
    ),
    record_event-HasOneEach ev es one.1,
  )
]

-- Events never give a key a second entry.
pub record_all-HasOneEach :
    (evs : List TcpEvent) (r : StatsReporter) → HasOneEach r → HasOneEach (record_all evs r)
unfolding record_all
record_all-HasOneEach [] r one = one
record_all-HasOneEach (ev ∷ evs) r one =
    record_all-HasOneEach evs (record_event ev r) (record_event-HasOneEach ev r one)

abbrev pub contains : ConnectionKey → List ConnectionKey → Bool
contains k [] = false
contains k (s ∷ ss) = key_eq s k || contains k ss

-- The number of keys of the events that are not among those seen, each counted once.
abbrev pub distinct : List ConnectionKey → List TcpEvent → ℕ
distinct seen [] = 0
distinct seen (ev ∷ evs) =
    (if contains (key_of ev) seen then 0 else 1) + distinct (key_of ev ∷ seen) evs

abbrev has : ConnectionKey → StatsReporter → Bool
has k r = elim (lookup k r) [ none ↦ false | some _ ↦ true ]

has-record_event :
    (k : ConnectionKey) (ev : TcpEvent) (r : StatsReporter)
    → has k (record_event ev r) ≡ (key_eq (key_of ev) k || has k r)
has-record_event k ev r = ground (arith, lookup-record_event k ev r)

count-record_event :
    (ev : TcpEvent) (r : StatsReporter)
    → length (record_event ev r) ≡ (if has (key_of ev) r then 0 else 1) + length r
unfolding record_event
count-record_event ev [] = omega arith
count-record_event ev (e ∷ es) = ground (arith, count-record_event ev es)

count-record_all :
    (evs : List TcpEvent) (r : StatsReporter) (seen : List ConnectionKey)
    → ((k : ConnectionKey) → has k r ≡ contains k seen)
    → connection_count (record_all evs r) ≡ distinct seen evs + length r
unfolding record_all connection_count
count-record_all [] r seen same = omega arith
count-record_all (ev ∷ evs) r seen same = ground (
  arith,
  count-record_all evs (record_event ev r) (key_of ev ∷ seen)
      (λ k. has-record_event k ev r ∙ ap (λ b. key_eq (key_of ev) k || b) (same k)),
  count-record_event ev r,
  same (key_of ev),
)

-- connection_count is the number of different connections among the recorded events.
pub connection_count_lem :
    (evs : List TcpEvent) → connection_count (record_all evs []) ≡ distinct [] evs
connection_count_lem evs = ground (arith, count-record_all evs [] [] (λ k. refl))

abbrev pub keys : StatsReporter → List ConnectionKey
keys [] = []
keys (e ∷ es) = e.key ∷ keys es

has-keys : (k : ConnectionKey) (r : StatsReporter) → has k r ≡ contains k (keys r)
has-keys k [] = refl
has-keys k (e ∷ es) = ground (arith, has-keys k es)

-- Events add as many connections to a table as they have different ones that are not yet in it.
pub connection_count-record_all :
    (evs : List TcpEvent) (r : StatsReporter)
    → connection_count (record_all evs r) ≡ distinct (keys r) evs + connection_count r
unfolding connection_count
connection_count-record_all evs r = count-record_all evs r (keys r) (λ k. has-keys k r)
