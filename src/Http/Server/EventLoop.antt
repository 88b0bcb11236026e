-- ===== src/Http/Server/EventLoop.antt =====
-- src/http/async_server.h: the descriptors, the buffers of the clients and the loop of `run`. What the
-- system calls return is an input; `opened` and `watched` are the descriptors that are open and
-- that epoll watches, `closed` those that the server has closed for itself, `sent` what it wrote.
pub mod Descriptors
pub mod Running
pub mod Buffers
mod Tests
use ebpf_system_monitor.Base.{
  ℕ, zero, suc, Bool, true, false, not, ◌&&◌, Option, none, some, List, [], ◌∷◌, ◌++◌, ◌==◌,
  if◌then◌else◌, Text,
}
use ebpf_system_monitor.Http.Server.{ReadResult, handle_client}

pub record Buffer : Type 0 where
  pub fd : ℕ
  pub text : Text

pub record HttpServer : Type 0 where
  pub listen_fd : Option ℕ  -- `none` is -1
  pub epoll_fd : Option ℕ
  pub stop_fd : Option ℕ
  pub running : Bool
  pub read_bufs : List Buffer
  pub opened : List ℕ
  pub watched : List ℕ
  pub closed : List ℕ
  pub sent : List Buffer

abbrev pub new_server : HttpServer
new_server = record {
  listen_fd = none;
  epoll_fd = none;
  stop_fd = none;
  running = false;
  read_bufs = [];
  opened = [];
  watched = [];
  closed = [];
  sent = [];
}

-- The state in which a call returns or throws.
pub data Outcome : Type 0 where
  done : HttpServer → Outcome
  threw : HttpServer → Outcome

abbrev pub then_do : Outcome → (HttpServer → Outcome) → Outcome
then_do (done s) f = f s
then_do (threw s) f = threw s

abbrev pub without : ℕ → List ℕ → List ℕ
without fd [] = []
without fd (x ∷ xs) = if x == fd then without fd xs else x ∷ without fd xs

abbrev pub without_buffer : ℕ → List Buffer → List Buffer
without_buffer fd [] = []
without_buffer fd (b ∷ bs) = if b.fd == fd then without_buffer fd bs else b ∷ without_buffer fd bs

-- `read_bufs_[fd]`, which begins empty.
abbrev pub buffer_of : ℕ → List Buffer → Text
buffer_of fd [] = []
buffer_of fd (b ∷ bs) = if b.fd == fd then b.text else buffer_of fd bs

abbrev pub is_fd : Option ℕ → ℕ → Bool
is_fd none fd = false
is_fd (some own) fd = fd == own

-- `ok` is what `epoll_ctl` says.
unfoldable pub epoll_add : ℕ → Bool → HttpServer → Outcome
epoll_add fd ok s = if ok then done (record s { watched = fd ∷ s.watched }) else threw s

unfoldable pub epoll_del : ℕ → HttpServer → HttpServer
epoll_del fd s = record s { watched = without fd s.watched }

-- One success of `accept4`, with what `epoll_ctl` then says.
pub record Accepted : Type 0 where
  pub client : ℕ
  pub added : Bool

-- The clients accepted before `accept4` fails.
unfoldable pub accept_clients : List Accepted → HttpServer → Outcome
unfolding epoll_add
accept_clients [] s = done s
accept_clients (a ∷ rest) s =
    then_do (epoll_add a.client a.added (record s { opened = a.client ∷ s.opened }))
      (accept_clients rest)

unfoldable pub close_client : ℕ → HttpServer → HttpServer
unfolding epoll_del
close_client fd s =
    let s' = epoll_del fd s in
    record s' { read_bufs = without_buffer fd s'.read_bufs; opened = without fd s'.opened }

-- The write, if there is a response, and the close.
unfoldable pub send_and_close : ℕ → Option Text → HttpServer → HttpServer
unfolding close_client
send_and_close fd none s = close_client fd s
send_and_close fd (some response) s =
    close_client fd (record s { sent = s.sent ++ (record { fd = fd; text = response } ∷ []) })

-- One event of `epoll_wait`, with what accept4 or read give if it is handled.
pub record Ready : Type 0 where
  pub fd : ℕ
  pub accepted : List Accepted
  pub reads : List ReadResult

module _ (handler : Option (Text → Text)) where
  unfoldable pub handle_ready : Ready → HttpServer → HttpServer
  unfolding send_and_close
  handle_ready r s =
      send_and_close r.fd (handle_client handler r.reads (buffer_of r.fd s.read_bufs)) s

  -- The `for` over the events of one `epoll_wait`.
  unfoldable pub handle_events : List Ready → HttpServer → Outcome
  unfolding accept_clients handle_ready
  handle_events [] s = done s
  handle_events (r ∷ rs) s =
      let accept = then_do (accept_clients r.accepted s) (handle_events rs) in
      let client = handle_events rs (handle_ready r s) in
      if is_fd s.stop_fd r.fd
      then done (record s { running = false })
      else if is_fd s.listen_fd r.fd
      then accept
      else client

-- `if (fd >= 0) { ::close(fd); fd = -1; }`
abbrev pub close_fd : Option ℕ → HttpServer → HttpServer
close_fd none s = s
close_fd (some fd) s = record s { opened = without fd s.opened; closed = fd ∷ s.closed }

-- The end of `run`, and of the destructor.
unfoldable pub close_fds : HttpServer → HttpServer
close_fds s =
    let s₁ = record (close_fd s.listen_fd s) { listen_fd = none } in
    let s₂ = record (close_fd s₁.epoll_fd s₁) { epoll_fd = none } in
    record (close_fd s₂.stop_fd s₂) { stop_fd = none }

-- How a run stands when the given results of `epoll_wait` are used up.
pub data Run : Type 0 where
  returned : HttpServer → Run
  waiting : HttpServer → Run
  failed : HttpServer → Run

abbrev pub after_events : Outcome → (HttpServer → Run) → Run
after_events (done s) f = f s
after_events (threw s) f = failed s

module _ (handler : Option (Text → Text)) where
  unfoldable pub run : List (List Ready) → HttpServer → Run
  unfolding handle_events
  run [] s = if s.running then waiting s else returned (close_fds s)
  run (batch ∷ batches) s =
      let again = after_events (handle_events handler batch s) (run batches) in
      if s.running then again else returned (close_fds s)

-- What the system calls of `start` return; `none` is an error.
pub record StartResults : Type 0 where
  pub socket : Option ℕ
  pub bound : Bool
  pub listens : Bool
  pub epoll : Option ℕ
  pub listen_added : Bool
  pub eventfd : Option ℕ
  pub stop_added : Bool

unfoldable pub start_stop_fd : StartResults → HttpServer → Outcome
unfolding epoll_add
start_stop_fd q s = elim q.eventfd [
  | none ↦ threw s
  | some fd ↦
      then_do (epoll_add fd q.stop_added (record s { stop_fd = some fd; opened = fd ∷ s.opened }))
        (λ s'. done (record s' { running = true }))
]

unfoldable pub start_epoll : StartResults → ℕ → HttpServer → Outcome
unfolding start_stop_fd
start_epoll q listen s = elim q.epoll [
  | none ↦ threw s
  | some fd ↦
      then_do
        (epoll_add listen q.listen_added (record s { epoll_fd = some fd; opened = fd ∷ s.opened }))
        (start_stop_fd q)
]

unfoldable pub start : StartResults → HttpServer → Outcome
unfolding start_epoll
start q s = elim q.socket [
  | none ↦ threw s
  | some fd ↦
      let s' = record s { listen_fd = some fd; opened = fd ∷ s.opened } in
      if not q.bound then threw s' else if not q.listens then threw s' else start_epoll q fd s'
]

-- Whether `stop` writes to the event descriptor.
unfoldable pub stop : HttpServer → Bool
stop s = elim s.stop_fd [ none ↦ false | some fd ↦ s.running ]

-- The destructor, after its call of stop.
unfoldable pub destroy : HttpServer → HttpServer
unfolding close_fds
destroy s = close_fds s
