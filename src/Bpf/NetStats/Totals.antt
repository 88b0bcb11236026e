-- ===== src/Bpf/NetStats/Totals.antt =====
-- The counters after any frames.
use ebpf_system_monitor.Base.{
  ℕ, zero, suc, ◌+◌, ◌*◌, ◌%◌, ◌^◌, ◌<◌, ◌≡◌, ◌≢◌, refl, ◌∙◌, subst, ◌⊎◌, inl, inr, Bool, true,
  false, ◌&&◌, Option, none, some, List, [], ◌∷◌, ◌==◌, leb, if◌then◌else◌, add64, u32, bswap16,
  length, get_or, arith, Bool-cases, Option-cases, ==_iff,
}
use ebpf_system_monitor.Bpf.Events.{Bytes, NetStatsVal}
use ebpf_system_monitor.Bpf.HashMap.{HashMap}
use ebpf_system_monitor.Bpf.NetStats.{
  NetStats, load16, count_entry, count_packet, classify, xdp_net_stats, count_all,
}

-- The frames that count, by the wire formats: an IPv4 or IPv6 frame that holds its whole header,
-- with the protocol named there.
abbrev pub protocol : Bytes → Option ℕ
protocol frame =
    let eth_type = get_or frame 12 0 * 256 + get_or frame 13 0 in
    if (eth_type == 0x0800) && leb 34 (length frame)
    then some (get_or frame 23 0)
    else if (eth_type == 0x86dd) && leb 54 (length frame)
    then some (get_or frame 20 0)
    else none

-- Every byte is below 256.
abbrev pub AreBytes : Bytes → Type 0
AreBytes [] = Unit {0}
AreBytes (b ∷ bs) = (b < 256) × AreBytes bs

get_or-lt : (bs : Bytes) (i : ℕ) → AreBytes bs → get_or bs i 0 < 256
get_or-lt [] i h = omega arith
get_or-lt (b ∷ bs) zero h = h.0
get_or-lt (b ∷ bs) (suc i) h = get_or-lt bs i h.1

abbrev pub has_proto : ℕ → Option ℕ → Bool
has_proto proto none = false
has_proto proto (some p) = p == proto

-- The packets and the bytes of a protocol among frames.
abbrev pub packets_of : ℕ → List Bytes → ℕ
packets_of proto [] = 0
packets_of proto (f ∷ fs) = (if has_proto proto (protocol f) then 1 else 0) + packets_of proto fs

abbrev pub bytes_of : ℕ → List Bytes → ℕ
bytes_of proto [] = 0
bytes_of proto (f ∷ fs) =
    (if has_proto proto (protocol f) then u32 (length f) else 0) + bytes_of proto fs

abbrev packets_in : Option NetStatsVal → ℕ
packets_in none = 0
packets_in (some v) = v.packets

abbrev bytes_in : Option NetStatsVal → ℕ
bytes_in none = 0
bytes_in (some v) = v.bytes

module _ (maps : HashMap NetStatsVal) where
  open maps use {Map, lookup, update, store}

  classify-protocol :
      (frame : Bytes) (m : Map)
      → AreBytes frame
      → classify maps frame m
        ≡ elim (protocol frame) [ none ↦ m | some p ↦ count_packet maps p (u32 (length frame)) m ]
  unfolding classify
  classify-protocol frame m bytes = rw (eth_type, classify) (ground arith)
    where
      eth_type : bswap16 (load16 frame 12) ≡ get_or frame 12 0 * 256 + get_or frame 13 0
      eth_type = omega (arith, get_or-lt frame 12 bytes, get_or-lt frame 13 bytes)

  -- From `o` to `o'` an entry grows by a packet of `len` bytes if `hit`, and stays otherwise.
  abbrev Grown : Bool → ℕ → Option NetStatsVal → Option NetStatsVal → Type 0
  Grown hit len o o' =
      (packets_in o' ≡ (if hit then add64 (packets_in o) 1 else packets_in o))
      × (bytes_in o' ≡ (if hit then add64 (bytes_in o) len else bytes_in o))

  entry-Grown :
      (proto len j : ℕ) (m : Map) (w : NetStatsVal)
      → Grown true len (lookup m proto) (some w)
      → Grown (proto == j) len (lookup m j) (if proto == j then some w else lookup m j)
  entry-Grown proto len j m w grown = elim (Bool-cases (proto == j)) [
    | inl same ↦ let e : proto ≡ j = (==_iff proto j).0 same in rw (same, ← e) grown
    | inr other ↦ rw other (refl, refl)
  ]

  -- A frame finds room in the map, if it needs a new entry.
  abbrev Finds : Option ℕ → ℕ → Map → Type 0
  Finds none len m = Unit {0}
  Finds (some p) len m =
      (lookup m p ≢ none) ⊎ ((update m p (record { packets = 1; bytes = len })).0 ≡ true)

  count_packet-Grown :
      (proto len j : ℕ) (m : Map)
      → len < 2 ^ 64
      → Finds (some proto) len m
      → Grown (proto == j) len (lookup m j) (lookup (count_packet maps proto len m) j)
  unfolding count_packet
  count_packet-Grown proto len j m small room = elim (Option-cases (lookup m proto)) [
    | inl new ↦
        rw (new, count_entry, maps.lookup-update m proto _ (updated new room))
          (entry-Grown proto len j m (record { packets = 1; bytes = len })
            (rw new (refl, omega arith)))
    | inr (v, old) ↦
        rw (old, count_entry, maps.lookup-store m proto _ v old)
          (entry-Grown proto len j m
            (record { packets = add64 v.packets 1; bytes = add64 v.bytes len })
            (rw old (refl, refl)))
  ]
    where
      updated :
          lookup m proto ≡ none
          → Finds (some proto) len m
          → (update m proto (record { packets = 1; bytes = len })).0 ≡ true
      updated new (inl old) = absurd (old new)
      updated new (inr stored) = stored

  frame-Grown :
      (frame : Bytes) (j : ℕ) (m : Map)
      → AreBytes frame
      → Finds (protocol frame) (u32 (length frame)) m
      → Grown
          (has_proto j (protocol frame))
          (u32 (length frame))
          (lookup m j)
          (lookup (classify maps frame m) j)
  frame-Grown frame j m bytes room = elim (Option-cases (protocol frame)) [
    | inl other ↦ rw (classify-protocol frame m bytes, other) (refl, refl)
    | inr (p, found) ↦
        rw (classify-protocol frame m bytes, found)
          (count_packet-Grown p (u32 (length frame)) j m (omega arith)
            (subst (λ o. Finds o (u32 (length frame)) m) found room))
  ]

  -- Every frame of a run finds room.
  abbrev pub AllFind : List Bytes → NetStats maps → Type 0
  AllFind [] s = Unit {0}
  AllFind (f ∷ fs) s =
      Finds (protocol f) (u32 (length f)) s.proto_stats × AllFind fs (xdp_net_stats maps f s)

abbrev pub AllBytes : List Bytes → Type 0
AllBytes [] = Unit {0}
AllBytes (f ∷ fs) = AreBytes f × AllBytes fs

abbrev count_in : Option ℕ → ℕ
count_in none = 0
count_in (some n) = n

more :
    (hit : Bool) (n old new : ℕ)
    → old < 2 ^ 64
    → new ≡ (if hit then add64 old n else old)
    → new < 2 ^ 64
more true n old new small e = omega arith
more false n old new small e = omega arith

joined :
    (hit : Bool) (n old new rest : ℕ)
    → new ≡ (if hit then add64 old n else old)
    → (new + rest) % 2 ^ 64 ≡ (old + ((if hit then n else 0) + rest)) % 2 ^ 64
joined true n old new rest e = omega arith
joined false n old new rest e = omega arith

module _ (maps : HashMap NetStatsVal) where
  -- The counters of protocol `j` after frames, from those before.
  pub record Counted (j : ℕ) (fs : List Bytes) (s t : NetStats maps) : Type 0 where
    pub packets :
        packets_in (maps.lookup t.proto_stats j)
        ≡ (packets_in (maps.lookup s.proto_stats j) + packets_of j fs) % 2 ^ 64
    pub bytes :
        bytes_in (maps.lookup t.proto_stats j)
        ≡ (bytes_in (maps.lookup s.proto_stats j) + bytes_of j fs) % 2 ^ 64

  -- While no frame needs an entry that the map refuses, the entry of each protocol counts the IPv4 and IPv6 frames
  -- with a whole header that name it, and their bytes, modulo 2 ^ 64; other frames count nowhere.
  pub count_all-Counted :
      (j : ℕ) (fs : List Bytes) (s : NetStats maps)
      → AllBytes fs
      → AllFind maps fs s
      → packets_in (maps.lookup s.proto_stats j) < 2 ^ 64
      → bytes_in (maps.lookup s.proto_stats j) < 2 ^ 64
      → Counted j fs s (count_all maps fs s)
  unfolding count_all xdp_net_stats
  count_all-Counted j [] s bs room p b = record { packets = omega arith; bytes = omega arith }
  count_all-Counted j (f ∷ fs) s bs room p b =
      let g = frame-Grown maps f j s.proto_stats bs.0 room.0 in
      let hit = has_proto j (protocol f) in
      let ih =
        count_all-Counted j fs (xdp_net_stats maps f s) bs.1 room.1 (more hit 1 _ _ p g.0)
          (more hit (u32 (length f)) _ _ b g.1) in
      record {
        packets = ih.packets ∙ joined hit 1 _ _ (packets_of j fs) g.0;
        bytes = ih.bytes ∙ joined hit (u32 (length f)) _ _ (bytes_of j fs) g.1;
      }
