-- ===== src/Monitor/Json/Connections.antt =====
-- The text of /connections, as a reader of JSON has it.
use ebpf_system_monitor.Base.{
  ℕ, ◌<◌, ◌^◌, ◌≡◌, refl, ◌∙◌, ap, sym, true, false, some, List, [], ◌∷◌, ◌++◌, append_assoc,
  append-nil, Text, ascii, to_string, bswap16,
}
use ebpf_system_monitor.StatsReporter.{ConnectionKey, ConnectionStats, StatsReporter, for_each}
use ebpf_system_monitor.Monitor.{
  connection_pieces, connection_json, add_connection, connections_text,
}
use ebpf_system_monitor.Monitor.Json.{
  Json, string, number, array, object, Elements, no_elements, and_element, no_members, with_members,
  Frame, Parser, want_value, want_value_or_end, want_key_or_end, after_element, put, put_number,
  put_string, open_object, close_object, open_array, close_array, colon, comma, is_digit, is_blank,
  between, start, step, read_on, result, read_json,
}
use ebpf_system_monitor.Monitor.Json.Characters.{
  IsQuotable, read_on-IsQuotable, read_on-to_string, to_string-IsQuotable, read_on-concat,
  read_pieces,
}

module _ (inet_ntop : ℕ → Text) where
  abbrev pub shown_address : ℕ → ℕ → Text
  shown_address ip port = (inet_ntop ip ++ (58 ∷ [])) ++ to_string port

  abbrev pub connection_value : ConnectionKey → ConnectionStats → Json
  connection_value k s = object (
      with_members no_members (
        (ascii "comm", string s.comm)
        ∷ (ascii "pid", number k.pid)
        ∷ (ascii "src", string (shown_address k.src_ip (bswap16 k.src_port)))
        ∷ (ascii "dst", string (shown_address k.dst_ip (bswap16 k.dst_port)))
        ∷ (ascii "tx", number s.bytes_tx)
        ∷ (ascii "rx", number s.bytes_rx)
        ∷ (ascii "connects", number s.connects)
        ∷ []))

  -- What the text of a connection needs: names and addresses that may stand between quotes, and
  -- numbers of 64 bits.
  abbrev pub IsShown : ConnectionKey → ConnectionStats → Type 0
  IsShown k s =
      IsQuotable s.comm
      × IsQuotable (inet_ntop k.src_ip)
      × IsQuotable (inet_ntop k.dst_ip)
      × (k.pid < 2 ^ 64)
      × (s.bytes_tx < 2 ^ 64)
      × (s.bytes_rx < 2 ^ 64)
      × (s.connects < 2 ^ 64)

  read_on-connection_json :
      (k : ConnectionKey) (s : ConnectionStats) (rest : Text) (p : Parser) (fs : List Frame)
      → IsShown k s
      → open_object p ≡ want_key_or_end fs
      → read_on (connection_json inet_ntop k s ++ rest) (between p)
        ≡ read_on rest (between (put (connection_value k s) fs))
  unfolding connection_json connection_pieces read_pieces read_on step start put_string put_number
      close_object colon comma is_digit is_blank
  read_on-connection_json k s rest p fs (comm, src, dst, pid, tx, rx, connects) e =
      read_on-concat (connection_pieces inet_ntop k s) rest (between p)
      ∙ ap (read_on rest) (
          rw (
            e,
            read_on-IsQuotable s.comm _ _ comm,
            read_on-to_string k.pid _ pid,
            read_on-IsQuotable (inet_ntop k.src_ip) _ _ src,
            read_on-IsQuotable (to_string (bswap16 k.src_port)) _ _ (to_string-IsQuotable _),
            read_on-IsQuotable (inet_ntop k.dst_ip) _ _ dst,
            read_on-IsQuotable (to_string (bswap16 k.dst_port)) _ _ (to_string-IsQuotable _),
            read_on-to_string s.bytes_tx _ tx,
            read_on-to_string s.bytes_rx _ rx,
            read_on-to_string s.connects _ connects,
          ))

  -- The texts of the connections, without the accumulator.
  abbrev rendered : StatsReporter → Text
  rendered [] = []
  rendered (e ∷ es) = (44 ∷ []) ++ (connection_json inet_ntop e.key e.stats ++ rendered es)

  abbrev listed : StatsReporter → Text
  listed [] = []
  listed (e ∷ es) = connection_json inet_ntop e.key e.stats ++ rendered es

  for_each-rendered :
      (r : StatsReporter) (out : Text)
      → (for_each (add_connection inet_ntop) r (record { first = false; text = out })).text
        ≡ out ++ rendered r
  unfolding for_each add_connection
  for_each-rendered [] out = sym (append-nil out)
  for_each-rendered (e ∷ es) out =
      for_each-rendered es ((out ++ (44 ∷ [])) ++ connection_json inet_ntop e.key e.stats)
      ∙ append_assoc (out ++ (44 ∷ [])) (connection_json inet_ntop e.key e.stats) (rendered es)
      ∙ append_assoc out (44 ∷ []) _

  for_each-listed :
      (r : StatsReporter)
      → (for_each (add_connection inet_ntop) r (record { first = true; text = 91 ∷ [] })).text
        ≡ 91 ∷ listed r
  unfolding for_each add_connection
  for_each-listed [] = refl
  for_each-listed (e ∷ es) = for_each-rendered es (91 ∷ connection_json inet_ntop e.key e.stats)

  abbrev pub AllShown : StatsReporter → Type 0
  AllShown [] = Unit {0}
  AllShown (e ∷ es) = IsShown e.key e.stats × AllShown es

  -- The elements so far, with those for the connections.
  abbrev pub values_after : Elements → StatsReporter → Elements
  values_after before [] = before
  values_after before (e ∷ es) =
      values_after (and_element before (connection_value e.key e.stats)) es

  read_on-rendered :
      (r : StatsReporter) (before : Elements)
      → AllShown r
      → read_on (rendered r ++ (93 ∷ [])) (between (after_element before []))
        ≡ between (put (array (values_after before r)) [])
  unfolding read_on step start close_array comma is_digit is_blank
  read_on-rendered [] before h = refl
  read_on-rendered (e ∷ es) before h =
      ap (λ t. read_on t (between (comma (after_element before []))))
        (append_assoc (connection_json inet_ntop e.key e.stats) (rendered es) (93 ∷ []))
      ∙ read_on-connection_json e.key e.stats (rendered es ++ (93 ∷ [])) _ _ h.0 refl
      ∙ read_on-rendered es (and_element before (connection_value e.key e.stats)) h.1

  read_on-listed :
      (r : StatsReporter)
      → AllShown r
      → read_on (listed r ++ (93 ∷ [])) (between (want_value_or_end []))
        ≡ between (put (array (values_after no_elements r)) [])
  unfolding read_on step start close_array is_digit is_blank
  read_on-listed [] h = refl
  read_on-listed (e ∷ es) h =
      ap (λ t. read_on t (between (want_value_or_end [])))
        (append_assoc (connection_json inet_ntop e.key e.stats) (rendered es) (93 ∷ []))
      ∙ read_on-connection_json e.key e.stats (rendered es ++ (93 ∷ [])) _ _ h.0 refl
      ∙ read_on-rendered es (and_element no_elements (connection_value e.key e.stats)) h.1

  -- If no name of a process and no address has a quote, a backslash or a control character, and the
  -- numbers have 64 bits, the text of /connections is JSON: an array with an object for each
  -- connection, whose members are its name, process, addresses with the swapped ports, and counters.
  pub read_json-connections_text :
      (r : StatsReporter)
      → AllShown r
      → read_json (connections_text inet_ntop r) ≡ some (array (values_after no_elements r))
  unfolding connections_text read_json read_on step start open_array is_digit is_blank put
  read_json-connections_text r h =
      ap (λ t. result (read_on (t ++ (93 ∷ [])) (between (want_value [])))) (for_each-listed r)
      ∙ ap result (read_on-listed r h)
