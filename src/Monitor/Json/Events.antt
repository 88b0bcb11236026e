-- ===== src/Monitor/Json/Events.antt =====
-- The lines that are printed with --json, as a reader of JSON has them.
use mathlib.Core.Option
use ebpf_system_monitor.Base.{
  concat, arith, ℕ, ◌<◌, ◌^◌, ◌≡◌, refl, ◌∙◌, ap, sym, some, [], ◌∷◌, ◌++◌, append-nil, Text, ascii,
  to_string,
}
use ebpf_system_monitor.Bpf.Events.{TcpEvent}
use ebpf_system_monitor.Monitor.{percent_s, line_pieces, json_line}
use ebpf_system_monitor.Monitor.Json.{
  Json, string, number, object, no_members, with_members, want_value, complete, put, put_number,
  put_string, open_object, close_object, colon, comma, is_digit, is_blank, between, start, step,
  read_on, result, read_json,
}
use ebpf_system_monitor.Monitor.Json.Characters.{
  IsQuotable, read_on-IsQuotable, read_on-to_string, to_string-IsQuotable, read_on-concat,
  read_pieces,
}

module _ (inet_ntop : ℕ → Text) where
  abbrev pub event_value : Text → TcpEvent → Json
  event_value name ev = object (
      with_members no_members (
        (ascii "ts", number ev.timestamp_ns)
        ∷ (ascii "pid", number ev.pid)
        ∷ (ascii "comm", string name)
        ∷ (ascii "src", string ((inet_ntop ev.src_ip ++ (58 ∷ [])) ++ to_string ev.src_port))
        ∷ (ascii "dst", string ((inet_ntop ev.dst_ip ++ (58 ∷ [])) ++ to_string ev.dst_port))
        ∷ (ascii "action", number ev.action)
        ∷ (ascii "tx", number ev.bytes_tx)
        ∷ (ascii "rx", number ev.bytes_rx)
        ∷ []))

  abbrev pub IsPrintable : Text → TcpEvent → Type 0
  IsPrintable name ev =
      IsQuotable name
      × IsQuotable (inet_ntop ev.src_ip)
      × IsQuotable (inet_ntop ev.dst_ip)
      × (ev.timestamp_ns < 2 ^ 64)
      × (ev.pid < 2 ^ 64)
      × (ev.action < 2 ^ 64)
      × (ev.bytes_tx < 2 ^ 64)
      × (ev.bytes_rx < 2 ^ 64)

  read_line_pieces :
      (name : Text) (ev : TcpEvent)
      → IsPrintable name ev
      → read_pieces (line_pieces inet_ntop name ev) (between (want_value []))
        ≡ between (complete (event_value name ev))
  unfolding line_pieces read_pieces read_on step start put_string put_number open_object
      close_object colon comma is_digit is_blank put
  read_line_pieces name ev (comm, src, dst, ts, pid, action, tx, rx) = rw (
    read_on-to_string ev.timestamp_ns _ ts,
    read_on-to_string ev.pid _ pid,
    read_on-IsQuotable name _ _ comm,
    read_on-IsQuotable (inet_ntop ev.src_ip) _ _ src,
    read_on-IsQuotable (to_string ev.src_port) _ _ (to_string-IsQuotable _),
    read_on-IsQuotable (inet_ntop ev.dst_ip) _ _ dst,
    read_on-IsQuotable (to_string ev.dst_port) _ _ (to_string-IsQuotable _),
    read_on-to_string ev.action _ action,
    read_on-to_string ev.bytes_tx _ tx,
    read_on-to_string ev.bytes_rx _ rx,
  )

  percent_s-terminated :
      (name padding : Text) → IsQuotable name → percent_s (name ++ (0 ∷ padding)) ≡ some name
  unfolding percent_s
  percent_s-terminated [] padding h = refl
  percent_s-terminated (c ∷ cs) padding h = ground (arith, h.0, percent_s-terminated cs padding h.3)

  read_line :
      (name : Text) (ev : TcpEvent)
      → IsPrintable name ev
      → read_json (concat (line_pieces inet_ntop name ev)) ≡ some (event_value name ev)
  unfolding read_json read_on
  read_line name ev printable =
      ap (λ t. read_json t) (sym (append-nil (concat (line_pieces inet_ntop name ev))))
      ∙ ap result (read_on-concat (line_pieces inet_ntop name ev) [] (between (want_value [])))
      ∙ ap result (read_line_pieces name ev printable)

  -- If the array with the name of the process has a NUL, the name before it and the addresses have no
  -- quote, no backslash and no control character, and the numbers have 64 bits, a line is printed for an
  -- event, and it is JSON: an object whose members are the event's time, process, name, addresses with
  -- their ports, action and counters.
  pub read_json-json_line :
      (ev : TcpEvent) (name padding : Text)
      → ev.comm ≡ name ++ (0 ∷ padding)
      → IsPrintable name ev
      → (line : Text) × (json_line inet_ntop ev ≡ some line)
        × (read_json line ≡ some (event_value name ev))
  unfolding json_line
  read_json-json_line ev name padding ends printable = (
    concat (line_pieces inet_ntop name ev),
    ap (Option.map (λ comm. concat (line_pieces inet_ntop comm ev)))
        (ap percent_s ends ∙ percent_s-terminated name padding printable.0),
    read_line name ev printable,
  )
