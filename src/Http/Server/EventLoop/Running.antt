-- ===== src/Http/Server/EventLoop/Running.antt =====
-- The loop goes on as long as nobody stops it.
use ebpf_system_monitor.Base.{
  ◌≡◌, refl, ◌∙◌, ap, sym, subst, inl, inr, true, false, Option, List, [], ◌∷◌, Bool-cases, arith,
  Text,
}
use ebpf_system_monitor.Http.Server.EventLoop.{
  HttpServer, Outcome, done, threw, then_do, is_fd, Accepted, accept_clients, send_and_close, Ready,
  handle_ready, handle_events, Run, returned, waiting, failed, after_events, run,
}
use ebpf_system_monitor.Http.Server.EventLoop.Descriptors.{
  state_of, Keeps, accept-Keeps, ready-Keeps, NoneRefused, IsDone, accept-IsDone,
}

-- No event is that of the stop descriptor.
abbrev pub NoStop : HttpServer → List Ready → Type 0
NoStop s [] = Unit {0}
NoStop s (r ∷ rs) = (is_fd s.stop_fd r.fd ≡ false) × NoStop s rs

abbrev pub NeverStops : HttpServer → List (List Ready) → Type 0
NeverStops s [] = Unit {0}
NeverStops s (batch ∷ batches) = NoStop s batch × NeverStops s batches

abbrev pub NeverRefused : List (List Ready) → Type 0
NeverRefused [] = Unit {0}
NeverRefused (batch ∷ batches) = NoneRefused batch × NeverRefused batches

-- The loop has not returned.
abbrev pub GoesOn : List (List Ready) → Run → Type 0
GoesOn bs (returned s) = ⊥
GoesOn bs (waiting s) = s.running ≡ true
GoesOn bs (failed s) = ¬ NeverRefused bs

abbrev Runs : HttpServer → List Ready → Outcome → Type 0
Runs s rs (done t) = (t.running ≡ s.running) × (t.stop_fd ≡ s.stop_fd)
Runs s rs (threw t) = ¬ NoneRefused rs

NoStop-same :
    (s t : HttpServer) (rs : List Ready) → t.stop_fd ≡ s.stop_fd → NoStop s rs → NoStop t rs
NoStop-same s t [] e h = tt
NoStop-same s t (r ∷ rs) e (h, k) = (ap (λ o. is_fd o r.fd) e ∙ h, NoStop-same s t rs e k)

NeverStops-same :
    (s t : HttpServer) (bs : List (List Ready))
    → t.stop_fd ≡ s.stop_fd
    → NeverStops s bs
    → NeverStops t bs
NeverStops-same s t [] e h = tt
NeverStops-same s t (b ∷ bs) e (h, k) = (NoStop-same s t b e h, NeverStops-same s t bs e k)

Runs-from :
    (s t : HttpServer) (r : Ready) (rs : List Ready) (o : Outcome)
    → t.running ≡ s.running
    → t.stop_fd ≡ s.stop_fd
    → Runs t rs o
    → Runs s (r ∷ rs) o
Runs-from s t r rs (done u) a b (c, d) = (c ∙ a, d ∙ b)
Runs-from s t r rs (threw u) a b h = λ none_refused. h none_refused.1

accept-running :
    (new : List Accepted) (s : HttpServer) → (state_of (accept_clients new s)).running ≡ s.running
unfolding accept_clients
accept-running [] s = refl
accept-running (a ∷ rest) s = elim (Bool-cases a.added) [
  | inl added ↦ rw added (accept-running rest _)
  | inr refused ↦ rw refused
]

then-Runs :
    (s : HttpServer) (rs : List Ready) (o : Outcome) (f : HttpServer → Outcome)
    → (NoneRefused rs → IsDone o)
    → ((t : HttpServer) → state_of o ≡ t → Runs s rs (f t))
    → Runs s rs (then_do o f)
then-Runs s rs (done t) f d h = h t refl
then-Runs s rs (threw t) f d h = d

GoesOn-later : (b : List Ready) (bs : List (List Ready)) (o : Run) → GoesOn bs o → GoesOn (b ∷ bs) o
GoesOn-later b bs (waiting s) h = h
GoesOn-later b bs (returned s) h = h
GoesOn-later b bs (failed s) h = λ never_refused. h never_refused.1

module _ (handler : Option (Text → Text)) where
  ready-running : (r : Ready) (s : HttpServer) → (handle_ready handler r s).running ≡ s.running
  unfolding handle_ready send_and_close
  ready-running r s = ground arith

  events-Runs :
      (rs : List Ready) (s : HttpServer) → NoStop s rs → Runs s rs (handle_events handler rs s)
  unfolding handle_events
  events-Runs [] s h = (refl, refl)
  events-Runs (r ∷ rs) s (other, h) =
      let continue : (t : HttpServer)
          → t.running ≡ s.running
          → t.stop_fd ≡ s.stop_fd
          → Runs s (r ∷ rs) (handle_events handler rs t) =
        λ t a b. Runs-from s t r rs _ a b (events-Runs rs t (NoStop-same s t rs b h)) in
      elim (Bool-cases (is_fd s.listen_fd r.fd)) [
        | inl listening ↦
            rw (other, listening)
              (then-Runs s (r ∷ rs) (accept_clients r.accepted s) (handle_events handler rs)
                (λ none_refused. accept-IsDone r.accepted s none_refused.0)
                (λ t e.
                  continue t (ap (λ u. u.running) (sym e) ∙ accept-running r.accepted s)
                    (subst (Keeps s) e (accept-Keeps r.accepted s)).2))
        | inr client ↦
            rw (other, client)
              (continue (handle_ready handler r s) (ready-running r s) (ready-Keeps handler r s).2)
      ]

  -- A running loop that never finds the stop event among those of epoll_wait does not return: it waits for
  -- more, still running; or it throws, which it does only if epoll refuses a client.
  pub run-GoesOn :
      (batches : List (List Ready)) (s : HttpServer)
      → s.running ≡ true
      → NeverStops s batches
      → GoesOn batches (run handler batches s)
  unfolding run
  run-GoesOn [] s on h = rw on
  run-GoesOn (b ∷ batches) s on (h, k) =
      let continue : (t : HttpServer)
          → t.running ≡ true
          → t.stop_fd ≡ s.stop_fd
          → GoesOn batches (run handler batches t) =
        λ t a e. run-GoesOn batches t a (NeverStops-same s t batches e k) in
      simp on (go (handle_events handler b s) (events-Runs b s h) continue)
    where
      go :
          (o : Outcome)
          → Runs s b o
          → ((t : HttpServer)
              → t.running ≡ true
              → t.stop_fd ≡ s.stop_fd
              → GoesOn batches (run handler batches t))
          → GoesOn (b ∷ batches) (after_events o (run handler batches))
      go (done t) (a, e) f = GoesOn-later b batches _ (f t (a ∙ on) e)
      go (threw t) refused f = λ never_refused. refused never_refused.0
