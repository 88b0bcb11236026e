-- ===== src/Monitor/Json/Served.antt =====
-- A request for /connections while the program runs, from the ring buffer to the client.
use ebpf_system_monitor.Base.{
  ℕ, ◌≡◌, ◌∙◌, ap, sym, subst, Bool, false, some, List, [], ◌∷◌, ◌++◌, arith, Text, ascii,
}
use ebpf_system_monitor.StatsReporter.{Entry, StatsReporter, record_all}
use ebpf_system_monitor.Http.Texts.{json_type}
use ebpf_system_monitor.Http.Server.{space, respond, build_response}
use ebpf_system_monitor.Http.Server.RequestLine.{HasNoSpace}
use ebpf_system_monitor.Monitor.{Monitor, http_route, connections_text}
use ebpf_system_monitor.Monitor.MainLoop.{Round, main_loop}
use ebpf_system_monitor.Monitor.Pipeline.{polled, main_loop-reporter}
use ebpf_system_monitor.Monitor.Routes.{respond-http_route}
use ebpf_system_monitor.Monitor.Json.{array, no_elements, read_json}
use ebpf_system_monitor.Monitor.Json.Connections.{values_after}
use ebpf_system_monitor.Monitor.Json.Recorded.{AllNamed, read_json-record_all}

abbrev pub connections_path : Text
connections_path = ascii "/connections"

module _ (inet_ntop : ℕ → Text) (sort : (Entry → Entry → Bool) → List Entry → List Entry) where
  answered :
      (now : ℕ) (r : StatsReporter) (method rest : Text)
      → HasNoSpace method
      → respond
          (some (http_route inet_ntop now r))
          (method ++ (space ∷ connections_path ++ (space ∷ rest)))
        ≡ build_response 200 json_type (connections_text inet_ntop r)
  unfolding http_route
  answered now r method rest m =
      respond-http_route inet_ntop now r method connections_path rest m (ground arith)

  -- After any rounds of the main loop of a monitor that began with an empty table and no stop: if
  -- no name of a process of the events that they deliver before the first signal, and no address
  -- of these, has a quote, a backslash or a control character, and the numbers of the processes
  -- have 32 bits, a request for "/connections", with any method without spaces, is answered with
  -- 200 and a body of JSON, an array with an object for each connection of the table, whose
  -- members are its name, process, addresses with the swapped ports, and counters.
  pub respond-main_loop :
      (rs : List Round) (m : Monitor) (now : ℕ) (method rest : Text)
      → m.g_stop ≡ false
      → m.reporter ≡ []
      → AllNamed inet_ntop (polled rs)
      → HasNoSpace method
      → let table = (main_loop inet_ntop sort rs m).reporter in
        (respond
            (some (http_route inet_ntop now table))
            (method ++ (space ∷ connections_path ++ (space ∷ rest)))
          ≡ build_response 200 json_type (connections_text inet_ntop table))
        × (read_json (connections_text inet_ntop table)
            ≡ some (array (values_after inet_ntop no_elements table)))
  respond-main_loop rs m now method rest on empty named one_word =
      let table : StatsReporter = (main_loop inet_ntop sort rs m).reporter in
      let recorded : table ≡ record_all (polled rs) [] =
        main_loop-reporter inet_ntop sort rs m on ∙ ap (record_all (polled rs)) empty in
      (
        answered now table method rest one_word,
        subst
            (λ (t : StatsReporter).
              read_json (connections_text inet_ntop t)
              ≡ some (array (values_after inet_ntop no_elements t)))
            (sym recorded) (read_json-record_all inet_ntop (polled rs) named),
      )
