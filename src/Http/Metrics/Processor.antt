-- ===== src/Http/Metrics/Processor.antt =====
-- The text for a packet processor, line by line.
use ebpf_system_monitor.Base.{ℕ, ◌≡◌, List, [], ◌∷◌, arith, Text, ascii}
use ebpf_system_monitor.DpdkSim.MemoryPool
use ebpf_system_monitor.DpdkSim.PacketProcessor.{BatchProcessor}
use ebpf_system_monitor.Http.Metrics.{
  processed_name, dropped_name, bytes_name, available_name, from_processor,
}
use ebpf_system_monitor.Http.Metrics.Lines.{
  read_lines, help_line, type_line, sample_line, read_blank, read_help, read_type, read_sample,
  then_line, read_end,
}

-- The four statistics of a packet processor, each with its help, its type and an empty line.
abbrev pub statistic_lines : ℕ → Text → Text → Text → ℕ → List Text → List Text
statistic_lines now name help type value rest =
    help_line name help ∷ type_line name type ∷ sample_line name [] value now ∷ [] ∷ rest

-- A scraper reads the packets processed and dropped, the bytes and the free packets of a processor, and
-- nothing else.
pub read_lines-from_processor :
    (now : ℕ) (proc : BatchProcessor)
    → read_lines (from_processor now proc) []
      ≡ statistic_lines now processed_name
          (ascii "Total packets processed")
          (ascii "counter")
          proc.stats.pkts_processed
          (statistic_lines now dropped_name
            (ascii "Total packets dropped (ring full)")
            (ascii "counter")
            proc.stats.pkts_dropped
            (statistic_lines now bytes_name
              (ascii "Total bytes processed")
              (ascii "counter")
              proc.stats.bytes_processed
              (statistic_lines now available_name
                (ascii "Free objects in memory pool")
                (ascii "gauge")
                (MemoryPool.available proc.pool)
                [])))
unfolding from_processor
read_lines-from_processor now proc =
    then_line
      (read_help processed_name (ascii "Total packets processed") _ (omega arith) (omega arith))
      (then_line (read_type processed_name (ascii "counter") _ (omega arith) (omega arith)) (
        then_line (read_sample processed_name [] proc.stats.pkts_processed now _ (omega arith) tt) (
          then_line (read_blank _) (
            then_line
              (read_help dropped_name (ascii "Total packets dropped (ring full)") _ (omega arith)
                (omega arith))
              (then_line (read_type dropped_name (ascii "counter") _ (omega arith) (omega arith)) (
                then_line
                  (read_sample dropped_name [] proc.stats.pkts_dropped now _ (omega arith) tt)
                  (then_line (read_blank _) (
                    then_line
                      (read_help bytes_name (ascii "Total bytes processed") _ (omega arith)
                        (omega arith))
                      (then_line
                        (read_type bytes_name (ascii "counter") _ (omega arith) (omega arith))
                        (then_line
                          (read_sample bytes_name [] proc.stats.bytes_processed now _ (omega arith)
                            tt)
                          (then_line (read_blank _) (
                            then_line
                              (read_help available_name (ascii "Free objects in memory pool") _
                                (omega arith) (omega arith))
                              (then_line
                                (read_type available_name (ascii "gauge") _ (omega arith)
                                  (omega arith))
                                (then_line
                                  (read_sample available_name [] (MemoryPool.available proc.pool)
                                    now _ (omega arith) tt)
                                  (then_line (read_blank _) read_end)))))))))))))))
