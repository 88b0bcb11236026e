-- ===== src/Monitor/Routes.antt =====
-- Which requests are answered with 200.
use ebpf_system_monitor.Base.{
  ℕ, ◌≡◌, refl, ◌∙◌, ap, inl, inr, Bool, true, false, ◌||◌, some, [], ◌∷◌, ◌++◌, if◌then◌else◌,
  Bool-cases, Text, ascii, text_eq,
}
use ebpf_system_monitor.StatsReporter.{StatsReporter}
use ebpf_system_monitor.Http.Metrics
use ebpf_system_monitor.Http.Texts.{metrics_path, metrics_type, json_type}
use ebpf_system_monitor.Http.Server.{space, respond, build_response, is_empty}
use ebpf_system_monitor.Http.Server.RequestLine.{HasNoSpace, parse_path-request}
use ebpf_system_monitor.Monitor.{http_route, connections_text}

abbrev pub is_route : Text → Bool
is_route path =
    text_eq path (ascii "/metrics")
    || (text_eq path (ascii "/connections") || text_eq path (ascii "/health"))

snoc_not_empty : (s : Text) (c : ℕ) → is_empty (s ++ (c ∷ [])) ≡ false
snoc_not_empty [] c = refl
snoc_not_empty (x ∷ xs) c = refl

route_not_empty : (path : Text) → is_route path ≡ true → is_empty path ≡ false
route_not_empty [] h = cc
route_not_empty (c ∷ cs) h = refl

module _ (inet_ntop : ℕ → Text) (now : ℕ) (reporter : StatsReporter) where
  metrics_not_empty : is_empty (Metrics.from_reporter inet_ntop now reporter) ≡ false
  unfolding Metrics.from_reporter Metrics.from_reporter_during Metrics.emit_help
  metrics_not_empty = refl

  connections_not_empty : is_empty (connections_text inet_ntop reporter) ≡ false
  unfolding connections_text
  connections_not_empty = snoc_not_empty _ 93

  body_empty :
      (path : Text)
      → is_empty (http_route inet_ntop now reporter path) ≡ (if is_route path then false else true)
  unfolding http_route
  body_empty path = elim (Bool-cases (text_eq path (ascii "/metrics"))) [
    | inl metrics ↦ rw metrics metrics_not_empty
    | inr other ↦ elim (Bool-cases (text_eq path (ascii "/connections"))) [
      | inl connections ↦ rw (other, connections) connections_not_empty
      | inr third ↦ elim (Bool-cases (text_eq path (ascii "/health"))) [
        | inl health ↦ rw (other, third, health)
        | inr none_of_them ↦ rw (other, third, none_of_them)
      ]
    ]
  ]

  -- A request of a path without spaces is answered with 200 and the route's text exactly for
  -- "/metrics", "/connections" and "/health", and with 404 and no body for any other path.
  pub respond-http_route :
      (method path rest : Text)
      → HasNoSpace method
      → HasNoSpace path
      → respond
          (some (http_route inet_ntop now reporter))
          (method ++ (space ∷ path ++ (space ∷ rest)))
        ≡ build_response
            (if is_route path then 200 else 404)
            (if text_eq path metrics_path then metrics_type else json_type)
            (if is_route path then http_route inet_ntop now reporter path else [])
  unfolding respond
  respond-http_route method path rest m p =
      ap answer (parse_path-request method path rest m p) ∙ elim (Bool-cases (is_route path)) [
        | inl known ↦ rw (
          known,
          route_not_empty path known,
          body_empty path ∙ ap (λ b. if b then false else true) known,
        )
        | inr unknown ↦ rw (
          unknown,
          empty_nil _ (body_empty path ∙ ap (λ b. if b then false else true) unknown),
          or_true (is_empty path),
        )
      ]
    where
      answer : Text → Text
      answer q =
          build_response
            (if is_empty q || is_empty (http_route inet_ntop now reporter q) then 404 else 200)
            (if text_eq q metrics_path then metrics_type else json_type)
            (http_route inet_ntop now reporter q)

      empty_nil : (s : Text) → is_empty s ≡ true → s ≡ []
      empty_nil [] h = refl
      empty_nil (c ∷ cs) h = cc

      or_true : (b : Bool) → (b || true) ≡ true
      or_true true = refl
      or_true false = refl
