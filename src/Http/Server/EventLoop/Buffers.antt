-- ===== src/Http/Server/EventLoop/Buffers.antt =====
-- What the loop keeps from one event to the next.
use ebpf_system_monitor.Base.{
  ◌≡◌, refl, ◌∙◌, ap, sym, subst, inl, inr, Option, some, List, [], ◌∷◌, ◌++◌, Bool-cases,
  Option-cases, Text, arith,
}
use ebpf_system_monitor.Http.Server.{handle_client}
use ebpf_system_monitor.Http.Server.EventLoop.{
  Buffer, HttpServer, Outcome, done, threw, then_do, is_fd, without_buffer, buffer_of, Accepted,
  accept_clients, send_and_close, Ready, handle_ready, handle_events, close_fds, Run, returned,
  waiting, failed, after_events, run,
}

module _ (handler : Option (Text → Text)) where
  -- Each response answers what one event's reads gave, from an empty buffer on.
  abbrev pub AllAnswered : List Buffer → Type 0
  AllAnswered [] = Unit {0}
  AllAnswered (b ∷ bs) =
      ((r : Ready) × (r.fd ≡ b.fd) × (handle_client handler r.reads [] ≡ some b.text))
      × AllAnswered bs

  AllAnswered-snoc :
      (bs : List Buffer) (r : Ready) (t : Text)
      → AllAnswered bs
      → handle_client handler r.reads [] ≡ some t
      → AllAnswered (bs ++ (record { fd = r.fd; text = t } ∷ []))
  AllAnswered-snoc [] r t all e = ((r, refl, e), tt)
  AllAnswered-snoc (b ∷ bs) r t all e = (all.0, AllAnswered-snoc bs r t all.1 e)

  pub record IsTidy (s : HttpServer) : Type 0 where
    pub no_buffers : s.read_bufs ≡ []
    pub answered : AllAnswered s.sent

  abbrev TidyAfter : Outcome → Type 0
  TidyAfter (done s) = IsTidy s
  TidyAfter (threw s) = IsTidy s

  abbrev pub TidyRun : Run → Type 0
  TidyRun (returned s) = IsTidy s
  TidyRun (waiting s) = IsTidy s
  TidyRun (failed s) = IsTidy s

  accept-IsTidy :
      (as' : List Accepted) (s : HttpServer) → IsTidy s → TidyAfter (accept_clients as' s)
  unfolding accept_clients
  accept-IsTidy [] s v = v
  accept-IsTidy (a ∷ rest) s v = elim (Bool-cases a.added) [
    | inl added ↦
        rw added
          (accept-IsTidy rest _ (record { no_buffers = v.no_buffers; answered = v.answered }))
    | inr refused ↦ rw refused (record { no_buffers = v.no_buffers; answered = v.answered })
  ]

  ready-IsTidy : (r : Ready) (s : HttpServer) → IsTidy s → IsTidy (handle_ready handler r s)
  unfolding handle_ready
  ready-IsTidy r s v =
      elim (Option-cases (handle_client handler r.reads (buffer_of r.fd s.read_bufs))) [
        | inl nothing ↦
            rw (nothing, send_and_close)
              (record { no_buffers = ap (without_buffer r.fd) v.no_buffers; answered = v.answered })
        | inr (t, answer) ↦
            rw (answer, send_and_close)
              (record {
                no_buffers = ap (without_buffer r.fd) v.no_buffers;
                answered = AllAnswered-snoc s.sent r t v.answered (
                    ap (λ bs. handle_client handler r.reads (buffer_of r.fd bs)) (sym v.no_buffers)
                    ∙ answer);
              })
      ]

  then-IsTidy :
      (o : Outcome) (f : HttpServer → Outcome)
      → TidyAfter o
      → ((s : HttpServer) → IsTidy s → TidyAfter (f s))
      → TidyAfter (then_do o f)
  then-IsTidy (done s) f v h = h s v
  then-IsTidy (threw s) f v h = v

  events-IsTidy :
      (rs : List Ready) (s : HttpServer) → IsTidy s → TidyAfter (handle_events handler rs s)
  unfolding handle_events
  events-IsTidy [] s v = v
  events-IsTidy (r ∷ rs) s v = elim (Bool-cases (is_fd s.stop_fd r.fd)) [
    | inl stopping ↦ rw stopping (record { no_buffers = v.no_buffers; answered = v.answered })
    | inr other ↦ elim (Bool-cases (is_fd s.listen_fd r.fd)) [
      | inl listening ↦
          rw (other, listening)
            (then-IsTidy (accept_clients r.accepted s) (handle_events handler rs)
              (accept-IsTidy r.accepted s v) (events-IsTidy rs))
      | inr client ↦
          rw (other, client) (events-IsTidy rs (handle_ready handler r s) (ready-IsTidy r s v))
    ]
  ]

  close_fds-IsTidy : (s : HttpServer) → IsTidy s → IsTidy (close_fds s)
  unfolding close_fds
  close_fds-IsTidy s v = record {
    no_buffers = same_buffers ∙ v.no_buffers;
    answered = subst AllAnswered (sym same_sent) v.answered;
  }
    where
      same_buffers : (close_fds s).read_bufs ≡ s.read_bufs
      same_buffers = ground arith

      same_sent : (close_fds s).sent ≡ s.sent
      same_sent = ground arith

  after-IsTidy :
      (o : Outcome) (f : HttpServer → Run)
      → TidyAfter o
      → ((s : HttpServer) → IsTidy s → TidyRun (f s))
      → TidyRun (after_events o f)
  after-IsTidy (done s) f v h = h s v
  after-IsTidy (threw s) f v h = v

  -- Whatever events come, if no buffer is kept before, none is kept after: every response that is
  -- sent answers what the reads of a single event gave.
  pub run-IsTidy :
      (batches : List (List Ready)) (s : HttpServer) → IsTidy s → TidyRun (run handler batches s)
  unfolding run
  run-IsTidy [] s v = elim (Bool-cases s.running) [
    | inl on ↦ simp on v
    | inr off ↦ simp off (close_fds-IsTidy s v)
  ]
  run-IsTidy (batch ∷ batches) s v = elim (Bool-cases s.running) [
    | inl on ↦ simp on (
        after-IsTidy (handle_events handler batch s) (run handler batches) (events-IsTidy batch s v)
          (run-IsTidy batches))
    | inr off ↦ simp off (close_fds-IsTidy s v)
  ]
