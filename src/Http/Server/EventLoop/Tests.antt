-- ===== src/Http/Server/EventLoop/Tests.antt =====
-- Tests of the event loop, and the theorems at concrete events.
use ebpf_system_monitor.Base.{◌≡◌, refl, true, Option, some, [], ◌∷◌, ◌++◌, Text}
use ebpf_system_monitor.Http.Server.{received, would_block, handle_client, read_loop}
use ebpf_system_monitor.Http.Server.EventLoop.{
  HttpServer, new_server, Ready, run, StartResults, start, destroy, close_fds, handle_events,
}
use ebpf_system_monitor.Http.Server.EventLoop.Descriptors.{
  state_of, start-destroy, IsOver, run-IsOver,
}
use ebpf_system_monitor.Http.Server.EventLoop.Running.{GoesOn, run-GoesOn}

-- All calls succeed, with descriptors 3, 4 and 5.
abbrev all_well : StartResults
all_well = record {
  socket = some 3;
  bound = true;
  listens = true;
  epoll = some 4;
  listen_added = true;
  eventfd = some 5;
  stop_added = true;
}

abbrev started : HttpServer
started = record {
  listen_fd = some 3;
  epoll_fd = some 4;
  stop_fd = some 5;
  running = true;
  read_bufs = [];
  opened = 5 ∷ 4 ∷ 3 ∷ [];
  watched = 5 ∷ 3 ∷ [];
  closed = [];
  sent = [];
}

started_reached : state_of (start all_well new_server) ≡ started
unfolding start
started_reached = refl

start-destroy_example :
    ((destroy (state_of (start all_well new_server))).opened ≡ [])
    × ((destroy (state_of (start all_well new_server))).closed
        ≡ (state_of (start all_well new_server)).opened)
    × (close_fds (destroy (state_of (start all_well new_server)))
        ≡ destroy (state_of (start all_well new_server)))
start-destroy_example = start-destroy all_well

abbrev client_comes : Ready
client_comes = record { fd = 3; accepted = record { client = 9; added = true } ∷ []; reads = [] }

abbrev client_sends : Ready
client_sends = record { fd = 9; accepted = []; reads = received (71 ∷ []) ∷ would_block ∷ [] }

abbrev stop_event : Ready
stop_event = record { fd = 5; accepted = []; reads = [] }

abbrev handler : Option (Text → Text)
handler = some (λ path. path)

client_closed :
    state_of (handle_events handler (client_comes ∷ client_sends ∷ []) started) ≡ record started {
      sent = (state_of (handle_events handler (client_comes ∷ client_sends ∷ []) started)).sent;
    }
unfolding handle_events handle_client read_loop
client_closed = refl

run-GoesOn_example :
    GoesOn
      ((client_comes ∷ []) ∷ (client_sends ∷ []) ∷ [])
      (run handler ((client_comes ∷ []) ∷ (client_sends ∷ []) ∷ []) started)
run-GoesOn_example =
    run-GoesOn handler ((client_comes ∷ []) ∷ (client_sends ∷ []) ∷ []) started refl
      ((refl, tt), ((refl, tt), tt))

run-IsOver_example :
    IsOver started
      (client_comes ∷ [])
      (run handler (((client_comes ∷ []) ++ (stop_event ∷ client_sends ∷ [])) ∷ []) started)
run-IsOver_example =
    run-IsOver handler (client_comes ∷ []) stop_event (client_sends ∷ []) [] started refl refl
