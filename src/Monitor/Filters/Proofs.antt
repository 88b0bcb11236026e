-- ===== src/Monitor/Filters/Proofs.antt =====
-- The options select the events that are reported.
use ebpf_system_monitor.Base.{
  ℕ, ◌+◌, ◌≡◌, ◌≢◌, ◌⊎◌, inl, inr, refl, ◌∙◌, ap, sym, subst, Bool, true, false, Option, none, some,
  List, [], ◌∷◌, ◌==◌, if◌then◌else◌, arith, u16,
}
use ebpf_system_monitor.Bpf.Events.{TcpEvent, tcp_action_close}
use ebpf_system_monitor.Bpf.HashMap.{HashMap}
use ebpf_system_monitor.Bpf.TcpTracer.{Tracer, Hook, trace_all}
use ebpf_system_monitor.Bpf.TcpTracer.Filter.{Selects, AllSelected, trace_all-AllSelected}
use ebpf_system_monitor.Monitor.CommandLine.{Config}
use ebpf_system_monitor.Monitor.Filters.{FilterMap, IsUpdate, updated, set_filter, set_filters}

-- What the options ask for: a close, or a process and a port that they name; 0 names all.
abbrev pub Requested : Config → TcpEvent → Type 0
Requested cfg ev =
    (ev.action ≡ tcp_action_close)
    ⊎ (((cfg.filter_pid ≡ 0) ⊎ (cfg.filter_pid ≡ ev.pid))
        × ((cfg.filter_port ≡ 0) ⊎ (u16 cfg.filter_port ≡ ev.dst_port)))

abbrev pub AllRequested : Config → List TcpEvent → Type 0
AllRequested cfg [] = Unit {0}
AllRequested cfg (ev ∷ evs) = Requested cfg ev × AllRequested cfg evs

-- The filters hold the options.
abbrev Holds : Config → (ℕ → Option ℕ) → Type 0
Holds cfg vs = (vs 0 ≡ some cfg.filter_pid) × (vs 1 ≡ some cfg.filter_port)

selected_by :
    (P : ℕ → Type 0) (o : Option ℕ) (f : ℕ)
    → o ≡ some f
    → (o ≡ none) ⊎ ((g : ℕ) × (o ≡ some g) × ((g ≡ 0) ⊎ P g))
    → (f ≡ 0) ⊎ P f
selected_by P o f e (inl nothing) = cc
selected_by P o f e (inr (g, e', h)) = let same : g ≡ f = cc in subst (λ x. (x ≡ 0) ⊎ P x) same h

Selects-Requested :
    (cfg : Config) (vs : ℕ → Option ℕ) (evs : List TcpEvent)
    → Holds cfg vs
    → AllSelected vs evs
    → AllRequested cfg evs
Selects-Requested cfg vs [] holds all = tt
Selects-Requested cfg vs (ev ∷ evs) holds all =
    (one all.0, Selects-Requested cfg vs evs holds all.1)
  where
    one : (ev.action ≡ tcp_action_close) ⊎ Selects vs ev.pid ev.dst_port → Requested cfg ev
    one (inl close) = inl close
    one (inr here) = inr (
      selected_by (λ f. f ≡ ev.pid) (vs 0) cfg.filter_pid holds.0 here.by_pid,
      selected_by (λ f. u16 f ≡ ev.dst_port) (vs 1) cfg.filter_port holds.1 here.by_port,
    )

module _ (update : (ℕ → Option ℕ) → ℕ → ℕ → Option (ℕ → Option ℕ))
    (documented : IsUpdate update) where
  -- One element is set, and the others are kept.
  abbrev Sets : ℕ → ℕ → FilterMap → FilterMap → Type 0
  Sets idx val m m' = (m'.values idx ≡ some val) × ((j : ℕ) → j ≢ idx → m'.values j ≡ m.values j)

  no_warning : (n : ℕ) → n + 1 ≢ 0
  no_warning n e = omega arith

  updated-Sets :
      (idx val : ℕ) (m : FilterMap) (o : Option (ℕ → Option ℕ))
      → update m.values idx val ≡ o
      → (updated o m).warnings ≡ 0
      → Sets idx val m (updated o m)
  updated-Sets idx val m none e quiet = elim (no_warning m.warnings quiet) [ ]
  updated-Sets idx val m (some vs) e quiet =
      (documented.sets m.values vs idx val e, λ j ne. documented.keeps m.values vs idx val j e ne)

  updated_quiet :
      (m : FilterMap) (o : Option (ℕ → Option ℕ)) → (updated o m).warnings ≡ 0 → m.warnings ≡ 0
  updated_quiet m none quiet = omega arith
  updated_quiet m (some vs) quiet = quiet

  -- An element that was 0 holds the option, whether it is set or not.
  option_set :
      (idx val : ℕ) (m : FilterMap) (all : Bool)
      → (all ≡ true → val ≡ 0)
      → m.values idx ≡ some 0
      → (if all then m else set_filter update idx val m).warnings ≡ 0
      → Sets idx val m (if all then m else set_filter update idx val m)
  unfolding set_filter
  option_set idx val m true is_zero zero quiet = (zero ∙ ap some (sym (is_zero refl)), λ j ne. refl)
  option_set idx val m false is_zero zero quiet =
      updated-Sets idx val m (update m.values idx val) refl quiet

  option_quiet :
      (idx val : ℕ) (m : FilterMap) (all : Bool)
      → (if all then m else set_filter update idx val m).warnings ≡ 0
      → m.warnings ≡ 0
  unfolding set_filter
  option_quiet idx val m true quiet = quiet
  option_quiet idx val m false quiet = updated_quiet m (update m.values idx val) quiet

  set_filters-Holds :
      (cfg : Config) (m : FilterMap)
      → m.values 0 ≡ some 0
      → m.values 1 ≡ some 0
      → (set_filters update cfg m).warnings ≡ 0
      → Holds cfg (set_filters update cfg m).values
  unfolding set_filters
  set_filters-Holds cfg m zero₀ zero₁ quiet =
      let m' = if cfg.filter_pid == 0 then m else set_filter update 0 cfg.filter_pid m in
      let before = option_quiet 1 cfg.filter_port m' (cfg.filter_port == 0) quiet in
      let (pid, kept) =
        option_set 0 cfg.filter_pid m (cfg.filter_pid == 0) (λ h. ground arith) zero₀ before in
      let (port, kept') =
        option_set 1 cfg.filter_port m' (cfg.filter_port == 0) (λ h. ground arith)
          (kept 1 (omega arith) ∙ zero₁) quiet in
      (kept' 0 (omega arith) ∙ pid, port)

  -- If no warning is printed, and the array begins with zeros, then whatever hooks run in a tracer that
  -- has it and no events yet, every event that is not a close has the process and the port (its low 16
  -- bits) that the options name, if they name one.
  pub trace_all-AllRequested :
      (maps : HashMap TcpEvent) (cfg : Config) (m : FilterMap) (ks : List Hook) (t : Tracer maps)
      → m.values 0 ≡ some 0
      → m.values 1 ≡ some 0
      → (set_filters update cfg m).warnings ≡ 0
      → t.filters ≡ (set_filters update cfg m).values
      → t.events ≡ []
      → AllRequested cfg (trace_all maps ks t).events
  trace_all-AllRequested maps cfg m ks t zero₀ zero₁ quiet given empty =
      Selects-Requested cfg t.filters (trace_all maps ks t).events
        (subst (Holds cfg) (sym given) (set_filters-Holds cfg m zero₀ zero₁ quiet))
        (trace_all-AllSelected maps ks t (subst (AllSelected t.filters) (sym empty) tt)).1
