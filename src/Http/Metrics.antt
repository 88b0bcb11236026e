-- ===== src/Http/Metrics.antt =====
-- src/http/metrics.h: the text for Prometheus. What is written to `out` is the value of a function; the
-- time in milliseconds is an input, and `inet_ntop` a parameter. `ntohs` swaps the two bytes: the
-- machine is little-endian.
pub mod Lines
pub mod Connections
pub mod Processor
pub mod Ports
pub mod Scrape
mod Tests
use ebpf_system_monitor.Base.{ℕ, List, [], ◌∷◌, ◌++◌, Text, ascii, to_string, bswap16}
use ebpf_system_monitor.StatsReporter.{
  ConnectionKey, ConnectionStats, StatsReporter, connection_count, for_each,
}
use ebpf_system_monitor.DpdkSim.MemoryPool
use ebpf_system_monitor.DpdkSim.PacketProcessor.{BatchProcessor}

unfoldable pub emit_help : Text → Text → Text
emit_help name help = ascii "# HELP " ++ (name ++ (32 ∷ help ++ (10 ∷ [])))

unfoldable pub emit_type : Text → Text → Text
emit_type name type = ascii "# TYPE " ++ (name ++ (32 ∷ type ++ (10 ∷ [])))

-- `out << name << labels << " " << value << " " << now_ms << "\n"`
unfoldable pub sample : Text → Text → ℕ → ℕ → Text
sample name labels value now =
    name ++ (labels ++ (32 ∷ to_string value ++ (32 ∷ to_string now ++ (10 ∷ []))))

abbrev pub connections_name : Text
connections_name = ascii "ebpf_active_connections"

abbrev pub tx_name : Text
tx_name = ascii "ebpf_connection_bytes_tx_total"

abbrev pub rx_name : Text
rx_name = ascii "ebpf_connection_bytes_rx_total"

abbrev pub connects_name : Text
connects_name = ascii "ebpf_connection_connects_total"

module _ (inet_ntop : ℕ → Text) where
  -- An address and a port as the labels show them.
  unfoldable pub address : ℕ → ℕ → Text
  address ip port = inet_ntop ip ++ (58 ∷ to_string (bswap16 port))

  unfoldable pub labels_of : ConnectionKey → ConnectionStats → Text
  unfolding address
  labels_of key st =
      ascii "{comm=\""
      ++ (st.comm
          ++ (ascii "\",pid=\""
              ++ (to_string key.pid
                  ++ (ascii "\",src=\""
                      ++ (address key.src_ip key.src_port
                          ++ (ascii "\",dst=\""
                              ++ (address key.dst_ip key.dst_port ++ ascii "\"}")))))))

  -- The callback of `for_each`.
  unfoldable pub connection_samples : ℕ → ConnectionKey → ConnectionStats → Text
  unfolding sample
  connection_samples now key st =
      let labels = labels_of key st in
      sample tx_name labels st.bytes_tx now
      ++ (sample rx_name labels st.bytes_rx now ++ sample connects_name labels st.connects now)

  -- from_reporter takes the reporter's lock twice, in `connection_count` and in `for_each`: the
  -- reporter as the first and as the second of them find it.
  unfoldable pub from_reporter_during : ℕ → StatsReporter → StatsReporter → Text
  unfolding emit_help emit_type sample
  from_reporter_during now counted listed =
      emit_help connections_name (ascii "Number of tracked TCP connections")
      ++ (emit_type connections_name (ascii "gauge")
          ++ (sample connections_name [] (connection_count counted) now
              ++ (10 ∷ emit_help tx_name (ascii "Bytes transmitted per connection")
                  ++ (emit_type tx_name (ascii "counter")
                      ++ (emit_help rx_name (ascii "Bytes received per connection")
                          ++ (emit_type rx_name (ascii "counter")
                              ++ (emit_help connects_name
                                    (ascii "TCP connect events per connection")
                                  ++ (emit_type connects_name (ascii "counter")
                                      ++ for_each
                                          (λ key st out. out ++ connection_samples now key st)
                                          listed []))))))))

  -- No event is recorded between the two.
  unfoldable pub from_reporter : ℕ → StatsReporter → Text
  unfolding from_reporter_during
  from_reporter now reporter = from_reporter_during now reporter reporter

abbrev pub processed_name : Text
processed_name = ascii "dpdk_sim_packets_processed_total"

abbrev pub dropped_name : Text
dropped_name = ascii "dpdk_sim_packets_dropped_total"

abbrev pub bytes_name : Text
bytes_name = ascii "dpdk_sim_bytes_processed_total"

abbrev pub available_name : Text
available_name = ascii "dpdk_sim_pool_available"

unfoldable pub from_processor : ℕ → BatchProcessor → Text
unfolding emit_help emit_type sample
from_processor now proc =
    emit_help processed_name (ascii "Total packets processed")
    ++ (emit_type processed_name (ascii "counter")
        ++ (sample processed_name [] proc.stats.pkts_processed now
            ++ (10 ∷ emit_help dropped_name (ascii "Total packets dropped (ring full)")
                ++ (emit_type dropped_name (ascii "counter")
                    ++ (sample dropped_name [] proc.stats.pkts_dropped now
                        ++ (10 ∷ emit_help bytes_name (ascii "Total bytes processed")
                            ++ (emit_type bytes_name (ascii "counter")
                                ++ (sample bytes_name [] proc.stats.bytes_processed now
                                    ++ (10
                                          ∷ emit_help available_name
                                              (ascii "Free objects in memory pool")
                                        ++ (emit_type available_name (ascii "gauge")
                                            ++ (sample available_name []
                                                  (MemoryPool.available proc.pool) now
                                                ++ (10 ∷ []))))))))))))
