-- ===== src/Bpf/NetStats/Tests.antt =====
-- Tests of the packet counters, and the theorem at concrete frames.
use ebpf_system_monitor.Base.{◌≡◌, refl, inr, arith, some, none, List, [], ◌∷◌, ◌++◌, replicate}
use ebpf_system_monitor.Bpf.Events.{Bytes, NetStatsVal}
use ebpf_system_monitor.Bpf.HashMap.{function_map}
use ebpf_system_monitor.Bpf.NetStats.{NetStats, count_all}
use ebpf_system_monitor.Bpf.NetStats.Totals.{Counted, count_all-Counted}

-- An IPv4 frame of TCP, one of UDP that is cut short, and an IPv6 frame of TCP.
abbrev tcp4 : Bytes
tcp4 = replicate 12 0 ++ (8 ∷ 0 ∷ replicate 9 0 ++ (6 ∷ replicate 10 0))

abbrev short_udp : Bytes
short_udp = replicate 12 0 ++ (8 ∷ 0 ∷ replicate 9 0 ++ (17 ∷ []))

abbrev tcp6 : Bytes
tcp6 = replicate 12 0 ++ (0x86 ∷ 0xdd ∷ replicate 6 0 ++ (6 ∷ replicate 33 0))

abbrev frames : List Bytes
frames = tcp4 ∷ short_udp ∷ tcp6 ∷ []

abbrev nothing : NetStats (function_map NetStatsVal)
nothing = record { proto_stats = λ _. none; total_packets = some 0 }

frames_counted : (count_all (function_map NetStatsVal) frames nothing).total_packets ≡ some 3
unfolding count_all
frames_counted = refl

tcp_counted :
    (count_all (function_map NetStatsVal) frames nothing).proto_stats 6
    ≡ some (record { packets = 2; bytes = 88 })
unfolding count_all
tcp_counted = refl

udp_not_counted : (count_all (function_map NetStatsVal) frames nothing).proto_stats 17 ≡ none
unfolding count_all
udp_not_counted = refl

count_all-Counted_example :
    Counted
      (function_map NetStatsVal)
      6
      frames
      nothing
      (count_all (function_map NetStatsVal) frames nothing)
count_all-Counted_example =
    count_all-Counted (function_map NetStatsVal) 6 frames nothing (omega arith)
      (inr refl, (tt, (inr refl, tt))) (omega arith) (omega arith)
