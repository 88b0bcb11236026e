-- ===== src/Http/Metrics/Connections.antt =====
-- The text for the connections, line by line.
use ebpf_system_monitor.Base.{
  ℕ, ◌≡◌, ◌∙◌, ap, sym, List, [], ◌∷◌, ◌++◌, arith, append_assoc, append-nil, Text, ascii,
  to_string, bswap16, Lacks-append, to_string-Lacks,
}
use ebpf_system_monitor.StatsReporter.{
  ConnectionKey, ConnectionStats, StatsReporter, connection_count, for_each,
}
use ebpf_system_monitor.Http.Metrics.{
  sample, connections_name, tx_name, rx_name, connects_name, address, labels_of, connection_samples,
  from_reporter_during, from_reporter,
}
use ebpf_system_monitor.Http.Metrics.Lines.{
  read_lines, help_line, type_line, sample_line, OneLine, read_blank, read_help, read_type,
  read_sample, then_line, read_end,
}

module _ (inet_ntop : ℕ → Text) where
  -- No name of a process and no address has a line break.
  abbrev pub AllPlain : StatsReporter → Type 0
  AllPlain [] = Unit {0}
  AllPlain (e ∷ es) =
      OneLine e.stats.comm
      × OneLine (inet_ntop e.key.src_ip)
      × OneLine (inet_ntop e.key.dst_ip)
      × AllPlain es

  -- The three samples of each connection.
  abbrev pub connection_lines : ℕ → StatsReporter → List Text
  connection_lines now [] = []
  connection_lines now (e ∷ es) =
      let labels = labels_of inet_ntop e.key e.stats in
      sample_line tx_name labels e.stats.bytes_tx now
      ∷ sample_line rx_name labels e.stats.bytes_rx now
      ∷ sample_line connects_name labels e.stats.connects now
      ∷ connection_lines now es

  address-OneLine : (ip port : ℕ) → OneLine (inet_ntop ip) → OneLine (address inet_ntop ip port)
  unfolding address
  address-OneLine ip port h =
      Lacks-append 10 (inet_ntop ip) _ h
        ((λ e. omega arith), to_string-Lacks 10 (bswap16 port) (omega arith))

  labels_of-OneLine :
      (k : ConnectionKey) (st : ConnectionStats)
      → OneLine st.comm
      → OneLine (inet_ntop k.src_ip)
      → OneLine (inet_ntop k.dst_ip)
      → OneLine (labels_of inet_ntop k st)
  unfolding labels_of
  labels_of-OneLine k st c s d = Lacks-append 10 (ascii "{comm=\"") _ (omega arith) (
      Lacks-append 10 st.comm _ c (
        Lacks-append 10 (ascii "\",pid=\"") _ (omega arith) (
          Lacks-append 10 (to_string k.pid) _ (to_string-Lacks 10 k.pid (omega arith)) (
            Lacks-append 10 (ascii "\",src=\"") _ (omega arith) (
              Lacks-append 10 (address inet_ntop k.src_ip k.src_port) _
                (address-OneLine k.src_ip k.src_port s)
                (Lacks-append 10 (ascii "\",dst=\"") _ (omega arith) (
                  Lacks-append 10 (address inet_ntop k.dst_ip k.dst_port) _
                    (address-OneLine k.dst_ip k.dst_port d) (omega arith))))))))

  -- The samples of all connections, without the accumulator.
  abbrev rendered : ℕ → StatsReporter → Text
  rendered now [] = []
  rendered now (e ∷ es) = connection_samples inet_ntop now e.key e.stats ++ rendered now es

  for_each-rendered :
      (now : ℕ) (r : StatsReporter) (out : Text)
      → for_each (λ key st o. o ++ connection_samples inet_ntop now key st) r out
        ≡ out ++ rendered now r
  unfolding for_each
  for_each-rendered now [] out = sym (append-nil out)
  for_each-rendered now (e ∷ es) out =
      for_each-rendered now es (out ++ connection_samples inet_ntop now e.key e.stats)
      ∙ append_assoc out (connection_samples inet_ntop now e.key e.stats) (rendered now es)

  read-rendered :
      (now : ℕ) (r : StatsReporter)
      → AllPlain r
      → read_lines (rendered now r) [] ≡ connection_lines now r
  unfolding connection_samples
  read-rendered now [] h = read_end
  read-rendered now (e ∷ es) h =
      let labels = labels_of inet_ntop e.key e.stats in
      let one = labels_of-OneLine e.key e.stats h.0 h.1 h.2 in
      let tx = sample tx_name labels e.stats.bytes_tx now in
      let rx = sample rx_name labels e.stats.bytes_rx now in
      let connects = sample connects_name labels e.stats.connects now in
      ap (λ t. read_lines t [])
        (append_assoc tx (rx ++ connects) (rendered now es)
          ∙ ap (λ t. tx ++ t) (append_assoc rx connects (rendered now es)))
      ∙ then_line (read_sample tx_name labels e.stats.bytes_tx now _ (omega arith) one) (
          then_line (read_sample rx_name labels e.stats.bytes_rx now _ (omega arith) one) (
            then_line (read_sample connects_name labels e.stats.connects now _ (omega arith) one)
              (read-rendered now es h.3)))

  -- The lines that come before the connections.
  abbrev pub head_lines : ℕ → StatsReporter → List Text
  head_lines now r =
      help_line connections_name (ascii "Number of tracked TCP connections")
      ∷ type_line connections_name (ascii "gauge")
      ∷ sample_line connections_name [] (connection_count r) now
      ∷ []
      ∷ help_line tx_name (ascii "Bytes transmitted per connection")
      ∷ type_line tx_name (ascii "counter")
      ∷ help_line rx_name (ascii "Bytes received per connection")
      ∷ type_line rx_name (ascii "counter")
      ∷ help_line connects_name (ascii "TCP connect events per connection")
      ∷ type_line connects_name (ascii "counter")
      ∷ []

  pub read_lines-from_reporter_during :
      (now : ℕ) (counted listed : StatsReporter)
      → AllPlain listed
      → read_lines (from_reporter_during inet_ntop now counted listed) []
        ≡ head_lines now counted ++ connection_lines now listed
  unfolding from_reporter_during
  read_lines-from_reporter_during now counted listed h =
      then_line
        (read_help connections_name (ascii "Number of tracked TCP connections") _ (omega arith)
          (omega arith))
        (then_line (read_type connections_name (ascii "gauge") _ (omega arith) (omega arith)) (
          then_line
            (read_sample connections_name [] (connection_count counted) now _ (omega arith) tt)
            (then_line (read_blank _) (
              then_line
                (read_help tx_name (ascii "Bytes transmitted per connection") _ (omega arith)
                  (omega arith))
                (then_line (read_type tx_name (ascii "counter") _ (omega arith) (omega arith)) (
                  then_line
                    (read_help rx_name (ascii "Bytes received per connection") _ (omega arith)
                      (omega arith))
                    (then_line (read_type rx_name (ascii "counter") _ (omega arith) (omega arith)) (
                      then_line
                        (read_help connects_name (ascii "TCP connect events per connection") _
                          (omega arith) (omega arith))
                        (then_line
                          (read_type connects_name (ascii "counter") _ (omega arith) (omega arith))
                          (ap (λ t. read_lines t []) (for_each-rendered now listed [])
                            ∙ read-rendered now listed h))))))))))

  -- If no name of a process and no address has a line break, a scraper that reads the text by lines
  -- gets the ten lines of the head, with the number of connections, and then three samples for each
  -- connection, with its labels, its counters and the time, and nothing else.
  pub read_lines-from_reporter :
      (now : ℕ) (r : StatsReporter)
      → AllPlain r
      → read_lines (from_reporter inet_ntop now r) [] ≡ head_lines now r ++ connection_lines now r
  unfolding from_reporter
  read_lines-from_reporter now r h = read_lines-from_reporter_during now r r h
