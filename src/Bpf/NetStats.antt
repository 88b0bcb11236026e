-- ===== src/Bpf/NetStats.antt =====
-- bpf/net_stats.bpf.c: packets and bytes by protocol, counted at the network interface. The frame
-- from `data` to `data_end` is the list of its bytes; the maps are those of one CPU. Header sizes
-- and field offsets are those of Ethernet (14 bytes, type at 12), IPv4 (20 bytes, protocol at 9)
-- and IPv6 (40 bytes, next header at 6).
pub mod Totals
mod Tests
use ebpf_system_monitor.Base.{
  ℕ, ◌+◌, ◌*◌, ◌%◌, ◌^◌, Bool, true, false, Option, none, some, List, [], ◌∷◌, ◌==◌, ltb,
  if◌then◌else◌, add64, u32, bswap16, length, get_or,
}
use ebpf_system_monitor.Bpf.Events.{Bytes, NetStatsVal}
use ebpf_system_monitor.Bpf.HashMap.{HashMap}

abbrev pub eth_p_ip : ℕ
eth_p_ip = 0x0800

abbrev pub eth_p_ipv6 : ℕ
eth_p_ipv6 = 0x86dd

-- The 16-bit word at an offset, as a little-endian machine loads it.
abbrev pub load16 : Bytes → ℕ → ℕ
load16 frame i = get_or frame i 0 + get_or frame (i + 1) 0 * 256

-- `if (total) (*total)++;`
abbrev pub incremented : Option ℕ → Option ℕ
incremented none = none
incremented (some n) = some (add64 n 1)

module _ (maps : HashMap NetStatsVal) where
  open maps use {Map, lookup, update, store}

  -- `total_packets` is the one entry of its array, or `none` if its lookup fails.
  pub record NetStats : Type 0 where
    pub proto_stats : Map
    pub total_packets : Option ℕ

  -- The branches of `count_packet` on the looked-up value.
  unfoldable pub count_entry : Option NetStatsVal → ℕ → ℕ → Map → Map
  count_entry (some val) proto pkt_len m =
      store m proto (record { packets = add64 val.packets 1; bytes = add64 val.bytes pkt_len })
  count_entry none proto pkt_len m = (update m proto (record { packets = 1; bytes = pkt_len })).1

  unfoldable pub count_packet : ℕ → ℕ → Map → Map
  unfolding count_entry
  count_packet proto pkt_len m = count_entry (lookup m proto) proto pkt_len m

  -- The program after the global counter, from the Ethernet header on.
  unfoldable pub classify : Bytes → Map → Map
  unfolding count_packet
  classify frame m =
      let len = length frame in
      let eth_type = bswap16 (load16 frame 12) in
      if ltb len 14
      then m
      else if eth_type == eth_p_ip
      then (if ltb len (14 + 20) then m else count_packet (get_or frame (14 + 9) 0) (u32 len) m)
      else if eth_type == eth_p_ipv6
      then (if ltb len (14 + 40) then m else count_packet (get_or frame (14 + 6) 0) (u32 len) m)
      else m

  -- It returns XDP_PASS on every path.
  unfoldable pub xdp_net_stats : Bytes → NetStats → NetStats
  unfolding classify
  xdp_net_stats frame s = record {
    proto_stats = classify frame s.proto_stats;
    total_packets = incremented s.total_packets;
  }

  unfoldable pub count_all : List Bytes → NetStats → NetStats
  unfolding xdp_net_stats
  count_all [] s = s
  count_all (frame ∷ frames) s = count_all frames (xdp_net_stats frame s)
