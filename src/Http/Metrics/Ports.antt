-- ===== src/Http/Metrics/Ports.antt =====
-- The ports in the labels.
use ebpf_system_monitor.Base.{
  ℕ, ◌/◌, ◌%◌, ◌^◌, ◌<◌, ◌≡◌, ◌↔◌, ◌∙◌, ap, sym, [], ◌∷◌, ◌++◌, arith, Text, to_string, read_from,
  read_from-to_string, bswap16,
}
use ebpf_system_monitor.Http.Metrics.{address}

append_cancel : (s t u : Text) → s ++ t ≡ s ++ u → t ≡ u
append_cancel [] t u e = e
append_cancel (c ∷ cs) t u e = append_cancel cs t u (cc)

to_string_injective : (m n : ℕ) → m < 2 ^ 64 → n < 2 ^ 64 → to_string m ≡ to_string n → m ≡ n
to_string_injective m n h k e =
    sym (read_from-to_string m h) ∙ ap (read_from 0) e ∙ read_from-to_string n k

-- A key's port, which the tracer has put in host order, is shown as it is only if its two bytes are
-- equal.
pub address-port_iff :
    (inet_ntop : ℕ → Text) (ip port : ℕ)
    → port < 2 ^ 16
    → (address inet_ntop ip port ≡ inet_ntop ip ++ (58 ∷ to_string port))
      ↔ (port / 256 ≡ port % 256)
unfolding address
address-port_iff inet_ntop ip port h = (shown_so, same_bytes)
  where
    shown_so :
        inet_ntop ip ++ (58 ∷ to_string (bswap16 port)) ≡ inet_ntop ip ++ (58 ∷ to_string port)
        → port / 256 ≡ port % 256
    shown_so e =
        let tails : 58 ∷ to_string (bswap16 port) ≡ 58 ∷ to_string port =
          append_cancel (inet_ntop ip) _ _ e in
        let swapped : bswap16 port ≡ port =
          to_string_injective (bswap16 port) port (omega arith) (omega arith) (cc) in
        omega arith

    same_bytes :
        port / 256 ≡ port % 256
        → inet_ntop ip ++ (58 ∷ to_string (bswap16 port)) ≡ inet_ntop ip ++ (58 ∷ to_string port)
    same_bytes e =
        let swapped : bswap16 port ≡ port = omega arith in
        ap (λ n. inet_ntop ip ++ (58 ∷ to_string n)) swapped
