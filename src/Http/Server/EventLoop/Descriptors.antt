-- ===== src/Http/Server/EventLoop/Descriptors.antt =====
-- The server's own descriptors are closed.
use ebpf_system_monitor.Base.{
  ◌≡◌, refl, ◌∙◌, ap, inl, inr, true, false, Option, none, some, ℕ, ◌==◌, subst, Lacks, List, [],
  ◌∷◌, ◌++◌, arith, Bool-cases, Text,
}
use ebpf_system_monitor.Http.Server.EventLoop.{
  HttpServer, new_server, Outcome, done, threw, then_do, without, is_fd, Accepted, accept_clients,
  send_and_close, Ready, handle_ready, handle_events, close_fds, Run, returned, waiting, failed,
  after_events, run, StartResults, start, destroy,
}

abbrev pub state_of : Outcome → HttpServer
state_of (done s) = s
state_of (threw s) = s

-- Wherever start fails, or if it does not, the destructor leaves none of its descriptors open and
-- closes each of them once; a second close_fds closes nothing.
pub start-destroy :
    (q : StartResults)
    → let s = state_of (start q new_server) in
      ((destroy s).opened ≡ [])
      × ((destroy s).closed ≡ s.opened)
      × (close_fds (destroy s) ≡ destroy s)
unfolding start destroy
start-destroy q = ground arith

-- `t` has the descriptors of `s`, and has closed no others.
abbrev pub Keeps : HttpServer → HttpServer → Type 0
Keeps s t =
    (t.listen_fd ≡ s.listen_fd)
    × (t.epoll_fd ≡ s.epoll_fd)
    × (t.stop_fd ≡ s.stop_fd)
    × (t.closed ≡ s.closed)

pub Keeps-trans : (s t u : HttpServer) → Keeps s t → Keeps t u → Keeps s u
Keeps-trans s t u (a, b, c, d) (a', b', c', d') = (a' ∙ a, b' ∙ b, c' ∙ c, d' ∙ d)

pub accept-Keeps :
    (new : List Accepted) (s : HttpServer) → Keeps s (state_of (accept_clients new s))
unfolding accept_clients
accept-Keeps [] s = (refl, refl, refl, refl)
accept-Keeps (a ∷ rest) s = elim (Bool-cases a.added) [
  | inl added ↦ rw added (accept-Keeps rest _)
  | inr refused ↦ rw refused (refl, refl, refl, refl)
]

-- epoll takes all clients that the events bring.
abbrev pub AllAdded : List Accepted → Type 0
AllAdded [] = Unit {0}
AllAdded (a ∷ rest) = (a.added ≡ true) × AllAdded rest

abbrev pub NoneRefused : List Ready → Type 0
NoneRefused [] = Unit {0}
NoneRefused (r ∷ rs) = AllAdded r.accepted × NoneRefused rs

abbrev pub IsDone : Outcome → Type 0
IsDone (done t) = Unit {0}
IsDone (threw t) = ⊥

pub accept-IsDone :
    (new : List Accepted) (s : HttpServer) → AllAdded new → IsDone (accept_clients new s)
unfolding accept_clients
accept-IsDone [] s h = tt
accept-IsDone (a ∷ rest) s (h, k) = rw h (accept-IsDone rest _ k)

-- Halted: the loop was told to stop, or has thrown because epoll has refused a client.
abbrev Halted : HttpServer → List Ready → Outcome → Type 0
Halted s rs (done t) = (t.running ≡ false) × Keeps s t
Halted s rs (threw t) = ¬ NoneRefused rs

Halted-from :
    (s t : HttpServer) (r : Ready) (rs : List Ready) (o : Outcome)
    → Keeps s t
    → Halted t rs o
    → Halted s (r ∷ rs) o
Halted-from s t r rs (done u) k (off, l) = (off, Keeps-trans s t u k l)
Halted-from s t r rs (threw u) k h = λ none_refused. h none_refused.1

then-Halted :
    (s : HttpServer) (rs : List Ready) (o : Outcome) (f : HttpServer → Outcome)
    → (NoneRefused rs → IsDone o)
    → ((t : HttpServer) → state_of o ≡ t → Halted s rs (f t))
    → Halted s rs (then_do o f)
then-Halted s rs (done t) f d h = h t refl
then-Halted s rs (threw t) f d h = d

abbrev pub descriptor : Option ℕ → List ℕ
descriptor none = []
descriptor (some fd) = fd ∷ []

abbrev pub IsShut : Option ℕ → List ℕ → Type 0
IsShut none opened = Unit {0}
IsShut (some fd) opened = Lacks fd opened

-- In `t` the descriptors that `s` had are closed: `close` was called on each once, after what `s` had
-- closed, and none is open or remembered.
abbrev pub AllClosed : HttpServer → HttpServer → Type 0
AllClosed s t =
    (t.closed
      ≡ descriptor s.stop_fd ++ (descriptor s.epoll_fd ++ (descriptor s.listen_fd ++ s.closed)))
    × IsShut s.listen_fd t.opened
    × IsShut s.epoll_fd t.opened
    × IsShut s.stop_fd t.opened
    × (t.listen_fd ≡ none)
    × (t.epoll_fd ≡ none)
    × (t.stop_fd ≡ none)

-- How a loop that began in `s` is over, after `rs`.
abbrev pub IsOver : HttpServer → List Ready → Run → Type 0
IsOver s rs (returned t) = AllClosed s t
IsOver s rs (failed t) = ¬ NoneRefused rs
IsOver s rs (waiting t) = ⊥

without-Lacks : (x : ℕ) (xs : List ℕ) → Lacks x (without x xs)
without-Lacks x [] = tt
without-Lacks x (y ∷ ys) = elim (Bool-cases (y == x)) [
  | inl same ↦ rw same (without-Lacks x ys)
  | inr other ↦ rw other (ground arith, without-Lacks x ys)
]

without-keeps : (x y : ℕ) (xs : List ℕ) → Lacks x xs → Lacks x (without y xs)
without-keeps x y [] h = tt
without-keeps x y (z ∷ zs) (h, k) = elim (Bool-cases (z == y)) [
  | inl same ↦ rw same (without-keeps x y zs k)
  | inr other ↦ rw other (h, without-keeps x y zs k)
]

close_fds-AllClosed : (s : HttpServer) → AllClosed s (close_fds s)
unfolding close_fds
close_fds-AllClosed s = go s.listen_fd s.epoll_fd s.stop_fd
  where
    go :
        (l e p : Option ℕ)
        → let s' = record s { listen_fd = l; epoll_fd = e; stop_fd = p } in
          AllClosed s' (close_fds s')
    go none none none = (refl, tt, tt, tt, refl, refl, refl)
    go none none (some p) = (refl, tt, tt, without-Lacks p _, refl, refl, refl)
    go none (some e) none = (refl, tt, without-Lacks e _, tt, refl, refl, refl)
    go none (some e) (some p) =
        (refl, tt, without-keeps e p _ (without-Lacks e _), without-Lacks p _, refl, refl, refl)
    go (some l) none none = (refl, without-Lacks l _, tt, tt, refl, refl, refl)
    go (some l) none (some p) =
        (refl, without-keeps l p _ (without-Lacks l _), tt, without-Lacks p _, refl, refl, refl)
    go (some l) (some e) none =
        (refl, without-keeps l e _ (without-Lacks l _), without-Lacks e _, tt, refl, refl, refl)
    go (some l) (some e) (some p) = (
      refl,
      without-keeps l p _ (without-keeps l e _ (without-Lacks l _)),
      without-keeps e p _ (without-Lacks e _),
      without-Lacks p _,
      refl,
      refl,
      refl,
    )

module _ (handler : Option (Text → Text)) where
  pub ready-Keeps : (r : Ready) (s : HttpServer) → Keeps s (handle_ready handler r s)
  unfolding handle_ready send_and_close
  ready-Keeps r s = (ground arith, ground arith, ground arith, ground arith)

  events-Halted :
      (before : List Ready) (r : Ready) (after : List Ready) (s : HttpServer)
      → is_fd s.stop_fd r.fd ≡ true
      → Halted s before (handle_events handler (before ++ (r ∷ after)) s)
  unfolding handle_events
  events-Halted [] r after s h = rw h (refl, (refl, refl, refl, refl))
  events-Halted (b ∷ before) r after s h =
      let continue : (t : HttpServer)
          → Keeps s t
          → Halted s (b ∷ before) (handle_events handler (before ++ (r ∷ after)) t) =
        λ t k.
          Halted-from s t b before _ k
            (events-Halted before r after t (ap (λ o. is_fd o r.fd) k.2 ∙ h)) in
      elim (Bool-cases (is_fd s.stop_fd b.fd)) [
        | inl stopping ↦ rw stopping (refl, (refl, refl, refl, refl))
        | inr other ↦ elim (Bool-cases (is_fd s.listen_fd b.fd)) [
          | inl listening ↦
              rw (other, listening)
                (then-Halted s (b ∷ before) (accept_clients b.accepted s)
                  (handle_events handler (before ++ (r ∷ after)))
                  (λ none_refused. accept-IsDone b.accepted s none_refused.0)
                  (λ t e. continue t (subst (Keeps s) e (accept-Keeps b.accepted s))))
          | inr client ↦ rw (other, client) (continue (handle_ready handler b s) (ready-Keeps b s))
        ]
      ]

  off-IsOver :
      (batches : List (List Ready)) (rs : List Ready) (s t : HttpServer)
      → t.running ≡ false
      → Keeps s t
      → IsOver s rs (run handler batches t)
  unfolding run
  off-IsOver [] rs s t off (a, b, c, d) = simp off (rw (← a, ← b, ← c, ← d) (close_fds-AllClosed t))
  off-IsOver (x ∷ batches) rs s t off (a, b, c, d) =
      simp off (rw (← a, ← b, ← c, ← d) (close_fds-AllClosed t))

  -- A running loop that finds the stop event among those of epoll_wait, wherever it stands among them,
  -- ends with them: it returns, and has closed each of the server's three descriptors once, and has none
  -- of them open; or it throws, which it does only if epoll refuses a client before that event.
  pub run-IsOver :
      (before : List Ready) (r : Ready) (after : List Ready) (batches : List (List Ready))
      (s : HttpServer)
      → s.running ≡ true
      → is_fd s.stop_fd r.fd ≡ true
      → IsOver s before (run handler ((before ++ (r ∷ after)) ∷ batches) s)
  unfolding run
  run-IsOver before r after batches s on h =
      simp on
        (go (handle_events handler (before ++ (r ∷ after)) s) (events-Halted before r after s h))
    where
      go :
          (o : Outcome) → Halted s before o → IsOver s before (after_events o (run handler batches))
      go (done t) (off, k) = off-IsOver batches before s t off k
      go (threw t) refused = refused
