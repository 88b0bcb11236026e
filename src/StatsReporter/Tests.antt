-- ===== src/StatsReporter/Tests.antt =====
-- Tests of the table of connections, and the theorems at concrete events.
use mathlib.Core.List.{Perm}
use mathlib.Core.List.Perm
use ebpf_system_monitor.Base.{
  ℕ, ◌≡◌, refl, Bool, false, some, List, [], ◌∷◌, if◌then◌else◌, Bool-cases, inl, inr, to_string,
  arith,
}
use ebpf_system_monitor.Bpf.Events.{TcpEvent}
use ebpf_system_monitor.StatsReporter.{
  key_eq, add_event, c_string, Entry, key_of, record_all, connection_count, print_top, clear,
}
use ebpf_system_monitor.StatsReporter.Table.{lookup, of_key, summary, record_all-summary}
use ebpf_system_monitor.StatsReporter.Top.{
  IsWeakOrder, NoneBefore, IsOrdered, IsSort, IsTop, print_top_lem,
}
use ebpf_system_monitor.StatsReporter.Format.{human_bytes, Shows, human_bytes-Shows}

-- Process `p` connects to port `port`, or closes that connection.
abbrev connect : ℕ → ℕ → TcpEvent
connect p port = record {
  timestamp_ns = 1;
  pid = p;
  uid = 1000;
  comm = 99 ∷ 117 ∷ 0 ∷ 5 ∷ [];
  src_ip = 1;
  dst_ip = 2;
  src_port = 50000;
  dst_port = port;
  af = 2;
  action = 0;
  bytes_tx = 0;
  bytes_rx = 0;
}

abbrev close : ℕ → ℕ → ℕ → ℕ → TcpEvent
close p port tx rx = record (connect p port) {
  timestamp_ns = 9;
  action = 1;
  bytes_tx = tx;
  bytes_rx = rx;
}

abbrev events : List TcpEvent
events =
    connect 42 80 ∷ close 42 80 512 4096 ∷ connect 7 22 ∷ close 42 80 100 200 ∷ close 7 22 1 1 ∷ []

both_connections : connection_count (record_all events []) ≡ 2
unfolding record_all connection_count key_eq
both_connections = refl

bytes_aggregated :
    lookup (key_of (connect 42 80)) (record_all events [])
    ≡ some (record {
      comm = 99 ∷ 117 ∷ [];
      uid = 1000;
      bytes_tx = 612;
      bytes_rx = 4296;
      connects = 1;
      timestamp = 9;
    })
unfolding record_all key_eq add_event c_string
bytes_aggregated = refl

cleared : connection_count (clear (record_all events [])) ≡ 0
unfolding clear connection_count
cleared = refl

record_all-summary_example :
    lookup (key_of (connect 42 80)) (record_all events [])
    ≡ summary (of_key (key_of (connect 42 80)) events)
record_all-summary_example = record_all-summary (key_of (connect 42 80)) events

-- Insertion sort, as one function that `std::sort` may be.
module _ {A : Type 0} (lt : A → A → Bool) where
  abbrev insert : A → List A → List A
  insert x [] = x ∷ []
  insert x (y ∷ ys) = let rest = insert x ys in if lt y x then y ∷ rest else x ∷ y ∷ ys

  abbrev sort : List A → List A
  sort [] = []
  sort (x ∷ xs) = insert x (sort xs)

  insert-perm : (x : A) (xs : List A) → Perm (insert x xs) (x ∷ xs)
  insert-perm x [] = Perm.refl (x ∷ [])
  insert-perm x (y ∷ ys) = elim (Bool-cases (lt y x)) [
    | inl before ↦ rw before (Perm.trans (Perm.cons y (insert-perm x ys)) (Perm.swap x y ys))
    | inr after ↦ rw after (Perm.refl (x ∷ y ∷ ys))
  ]

  sort-perm : (xs : List A) → Perm (sort xs) xs
  sort-perm [] = Perm.refl []
  sort-perm (x ∷ xs) = Perm.trans (insert-perm x (sort xs)) (Perm.cons x (sort-perm xs))

  insert-NoneBefore :
      (y x : A) (xs : List A) → lt x y ≡ false → NoneBefore lt y xs → NoneBefore lt y (insert x xs)
  insert-NoneBefore y x [] h all = (h, tt)
  insert-NoneBefore y x (z ∷ zs) h all = elim (Bool-cases (lt z x)) [
    | inl before ↦ rw before (all.0, insert-NoneBefore y x zs h all.1)
    | inr after ↦ rw after (h, all)
  ]

  module _ (order : IsWeakOrder lt) where
    NoneBefore-trans :
        (x y : A) (xs : List A) → lt y x ≡ false → NoneBefore lt y xs → NoneBefore lt x xs
    NoneBefore-trans x y [] h all = tt
    NoneBefore-trans x y (z ∷ zs) h all =
        (order.neg_trans x y z all.0 h, NoneBefore-trans x y zs h all.1)

    insert-IsOrdered : (x : A) (xs : List A) → IsOrdered lt xs → IsOrdered lt (insert x xs)
    insert-IsOrdered x [] h = (tt, tt)
    insert-IsOrdered x (y ∷ ys) h = elim (Bool-cases (lt y x)) [
      | inl before ↦
          rw before
            (insert-NoneBefore y x ys (order.asym y x before) h.0, insert-IsOrdered x ys h.1)
      | inr after ↦ rw after ((after, NoneBefore-trans x y ys after h.0), h)
    ]

    sort-IsOrdered : (xs : List A) → IsOrdered lt (sort xs)
    sort-IsOrdered [] = tt
    sort-IsOrdered (x ∷ xs) = insert-IsOrdered x (sort xs) (sort-IsOrdered xs)

insertion-IsSort : IsSort {A = Entry} (λ lt xs. sort lt xs)
insertion-IsSort = record {
  perm = λ lt order xs. sort-perm lt xs;
  ordered = λ lt order xs. sort-IsOrdered lt order xs;
}

print_top_lem_example :
    IsTop 1 (record_all events []) (print_top (λ lt xs. sort lt xs) 1 (record_all events []))
print_top_lem_example =
    print_top_lem (λ lt xs. sort lt xs) insertion-IsSort 1 (record_all events [])

human_bytes-Shows_example : Shows 612000 (human_bytes 612000)
human_bytes-Shows_example = human_bytes-Shows 612000 (omega arith)

two_megabytes : human_bytes 2097153 ≡ 50 ∷ 77 ∷ []
unfolding human_bytes to_string
two_megabytes = refl
