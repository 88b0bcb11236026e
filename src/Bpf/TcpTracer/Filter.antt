-- ===== src/Bpf/TcpTracer/Filter.antt =====
-- What the filters select.
use ebpf_system_monitor.Base.{
  ℕ, ◌≡◌, ◌⊎◌, inl, inr, refl, ◌∙◌, sym, subst, true, false, Option, none, some, List, [], ◌∷◌,
  ◌++◌, bswap16, u16, arith, Bool-cases, Option-cases,
}
use ebpf_system_monitor.Bpf.Events.{TcpEvent, tcp_action_close}
use ebpf_system_monitor.Bpf.HashMap.{HashMap}
use ebpf_system_monitor.Bpf.TcpTracer.{
  Sock, Helpers, Tracer, Hook, connects, closes, pid_of, connect_event, close_event, submit, fill,
  pid_excluded, port_excluded, should_filter, trace_tcp_connect, trace_tcp_close, close_into, trace,
  trace_all,
}

-- A filter that is missing or 0 selects everything, any other what it names; a port by its low 16
-- bits.
pub record Selects (filters : ℕ → Option ℕ) (pid dport : ℕ) : Type 0 where
  pub by_pid : (filters 0 ≡ none) ⊎ ((f : ℕ) × (filters 0 ≡ some f) × ((f ≡ 0) ⊎ (f ≡ pid)))
  pub by_port : (filters 1 ≡ none) ⊎ ((f : ℕ) × (filters 1 ≡ some f) × ((f ≡ 0) ⊎ (u16 f ≡ dport)))

pid_excluded_lem :
    (o : Option ℕ) (pid : ℕ)
    → pid_excluded o pid ≡ false
    → (o ≡ none) ⊎ ((f : ℕ) × (o ≡ some f) × ((f ≡ 0) ⊎ (f ≡ pid)))
pid_excluded_lem none pid h = inl refl
pid_excluded_lem (some f) pid h = inr (f, refl, ground arith)

port_excluded_lem :
    (o : Option ℕ) (dport : ℕ)
    → port_excluded o dport ≡ false
    → (o ≡ none) ⊎ ((f : ℕ) × (o ≡ some f) × ((f ≡ 0) ⊎ (u16 f ≡ dport)))
port_excluded_lem none dport h = inl refl
port_excluded_lem (some f) dport h = inr (f, refl, ground arith)

should_filter-Selects :
    (filters : ℕ → Option ℕ) (pid dport : ℕ)
    → should_filter filters pid dport ≡ false
    → Selects filters pid dport
unfolding should_filter
should_filter-Selects filters pid dport h = record {
  by_pid = pid_excluded_lem (filters 0) pid (ground arith);
  by_port = port_excluded_lem (filters 1) dport (ground arith);
}

-- Each event is a close, or its process and port are selected.
abbrev pub AllSelected : (ℕ → Option ℕ) → List TcpEvent → Type 0
AllSelected filters [] = Unit {0}
AllSelected filters (ev ∷ evs) =
    ((ev.action ≡ tcp_action_close) ⊎ Selects filters ev.pid ev.dst_port) × AllSelected filters evs

AllSelected-snoc :
    (filters : ℕ → Option ℕ) (evs : List TcpEvent) (ev : TcpEvent)
    → AllSelected filters evs
    → (ev.action ≡ tcp_action_close) ⊎ Selects filters ev.pid ev.dst_port
    → AllSelected filters (evs ++ (ev ∷ []))
AllSelected-snoc filters [] ev all here = (here, tt)
AllSelected-snoc filters (e ∷ evs) ev all here = (all.0, AllSelected-snoc filters evs ev all.1 here)

module _ (maps : HashMap TcpEvent) where
  submit-AllSelected :
      (filters : ℕ → Option ℕ) (slot : Option TcpEvent) (ev : TcpEvent) (evs : List TcpEvent)
      → AllSelected filters evs
      → Selects filters ev.pid ev.dst_port
      → AllSelected filters (submit slot ev evs)
  submit-AllSelected filters none ev evs all here = all
  submit-AllSelected filters (some slot) ev evs all here =
      AllSelected-snoc filters evs ev all (inr here)

  connect-AllSelected :
      (h : Helpers) (sk : Sock) (t : Tracer maps)
      → AllSelected t.filters t.events
      → let t' = trace_tcp_connect maps h sk t in
        (t'.filters ≡ t.filters) × AllSelected t.filters t'.events
  unfolding trace_tcp_connect
  connect-AllSelected h sk t all =
      elim (Bool-cases (should_filter t.filters (pid_of h) (bswap16 sk.skc_dport))) [
        | inl excluded ↦ rw (excluded, trace_tcp_connect) (refl, all)
        | inr selected ↦
            rw (selected, trace_tcp_connect)
              (
                refl,
                submit-AllSelected t.filters h.slot (connect_event h sk) t.events all
                    (should_filter-Selects t.filters (pid_of h) (bswap16 sk.skc_dport) selected),
              )
      ]

  close-AllSelected :
      (h : Helpers) (sk : Sock) (t : Tracer maps)
      → AllSelected t.filters t.events
      → let t' = trace_tcp_close maps h sk t in
        (t'.filters ≡ t.filters) × AllSelected t.filters t'.events
  unfolding trace_tcp_close
  close-AllSelected h sk t all = elim (Option-cases h.slot) [
    | inl full ↦ rw (full, trace_tcp_close) (refl, all)
    | inr (slot, given) ↦
        rw (given, trace_tcp_close) (closed slot (maps.lookup t.pending_connects (pid_of h)))
  ]
    where
      closed :
          (slot : TcpEvent) (o : Option TcpEvent)
          → let t' = close_into maps slot o h sk t in
            (t'.filters ≡ t.filters) × AllSelected t.filters t'.events
      closed slot none = (refl, AllSelected-snoc t.filters t.events _ all (inl refl))
      closed slot (some ev) = (refl, AllSelected-snoc t.filters t.events _ all (inl refl))

  -- Whatever hooks run, every event that is not a close has a process and a port that the filters
  -- select, if that held before.
  pub trace_all-AllSelected :
      (ks : List Hook) (t : Tracer maps)
      → AllSelected t.filters t.events
      → let t' = trace_all maps ks t in (t'.filters ≡ t.filters) × AllSelected t.filters t'.events
  unfolding trace_all
  trace_all-AllSelected [] t all = (refl, all)
  trace_all-AllSelected (connects h sk ∷ ks) t all =
      let (same, here) = connect-AllSelected h sk t all in
      let (kept, rest) =
        trace_all-AllSelected ks (trace_tcp_connect maps h sk t)
          (subst (λ fs. AllSelected fs (trace_tcp_connect maps h sk t).events) (sym same) here) in
      (
        kept ∙ same,
        subst (λ fs. AllSelected fs (trace_all maps ks (trace_tcp_connect maps h sk t)).events) same
            rest,
      )
  trace_all-AllSelected (closes h sk ∷ ks) t all =
      let (same, here) = close-AllSelected h sk t all in
      let (kept, rest) =
        trace_all-AllSelected ks (trace_tcp_close maps h sk t)
          (subst (λ fs. AllSelected fs (trace_tcp_close maps h sk t).events) (sym same) here) in
      (
        kept ∙ same,
        subst (λ fs. AllSelected fs (trace_all maps ks (trace_tcp_close maps h sk t)).events) same
            rest,
      )

  -- The close of a connection that the filters exclude is reported all the same.
  pub close_ignores_filters :
      (h : Helpers) (sk : Sock) (t : Tracer maps) (slot : TcpEvent)
      → should_filter t.filters (pid_of h) (bswap16 sk.skc_dport) ≡ true
      → h.slot ≡ some slot
      → maps.lookup t.pending_connects (pid_of h) ≡ none
      → (trace maps (connects h sk) t ≡ t)
        × ((trace maps (closes h sk) t).events
            ≡ t.events ++ (close_event (fill slot h sk) h sk ∷ []))
  unfolding trace trace_tcp_connect trace_tcp_close
  close_ignores_filters h sk t slot excluded given none_pending =
      (rw (excluded, trace_tcp_connect), rw (given, trace_tcp_close, none_pending, close_into))
