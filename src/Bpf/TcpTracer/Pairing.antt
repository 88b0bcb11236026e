-- ===== src/Bpf/TcpTracer/Pairing.antt =====
-- Which connect event a close event reports.
use ebpf_system_monitor.Base.{
  ◌==◌, arith, ℕ, ◌/◌, ◌%◌, ◌^◌, ◌≡◌, ◌≢◌, refl, ◌∙◌, inl, inr, Bool-cases, Option-cases, ap, true,
  false, none, some, List, [], ◌∷◌, ◌++◌, bswap16, ==_self,
}
use ebpf_system_monitor.Bpf.Events.{TcpEvent}
use ebpf_system_monitor.Bpf.HashMap.{HashMap}
use ebpf_system_monitor.Bpf.TcpTracer.{
  Sock, Helpers, Tracer, Hook, connects, closes, pid_of, connect_event, close_event, submit,
  should_filter, trace_tcp_connect, trace_tcp_close, close_into, trace, trace_all,
}

-- A connect that is traced: it passes the filters, has room in both maps and memory for its event.
pub record IsTraced (maps : HashMap TcpEvent) (t : Tracer maps) (h : Helpers) (sk : Sock)
    : Type 0 where
  pub passes : should_filter t.filters (pid_of h) (bswap16 sk.skc_dport) ≡ false
  pub kept : (maps.update t.pending_connects (pid_of h) (connect_event h sk)).0 ≡ true

==_ne : (a b : ℕ) → a ≢ b → (a == b) ≡ false
==_ne a b h = ground (arith, h)

abbrev pub process_of : Hook → ℕ
process_of (connects h sk) = pid_of h
process_of (closes h sk) = pid_of h

-- All hooks are called by other processes than `p`.
abbrev pub AllOthers : ℕ → List Hook → Type 0
AllOthers p [] = Unit {0}
AllOthers p (k ∷ ks) = (process_of k ≢ p) × AllOthers p ks

-- The event of a connect, and that of the close `hd` of a socket that the connect `hc` has opened.
abbrev pub connect_seen : Helpers → Sock → TcpEvent
connect_seen hc a = record {
  timestamp_ns = hc.ktime_ns;
  pid = hc.pid_tgid / 2 ^ 32 % 2 ^ 32;
  uid = hc.uid_gid % 2 ^ 32;
  comm = hc.comm;
  src_ip = a.skc_rcv_saddr;
  dst_ip = a.skc_daddr;
  src_port = a.skc_num;
  dst_port = bswap16 a.skc_dport;
  af = 2;
  action = 0;
  bytes_tx = 0;
  bytes_rx = 0;
}

abbrev pub close_seen : Helpers → Helpers → Sock → Sock → TcpEvent
close_seen hc hd a b = record {
  timestamp_ns = hd.ktime_ns;
  pid = hc.pid_tgid / 2 ^ 32 % 2 ^ 32;
  uid = hc.uid_gid % 2 ^ 32;
  comm = hc.comm;
  src_ip = a.skc_rcv_saddr;
  dst_ip = a.skc_daddr;
  src_port = a.skc_num;
  dst_port = bswap16 a.skc_dport;
  af = 2;
  action = 1;
  bytes_tx = b.bytes_sent;
  bytes_rx = b.bytes_received;
}

module _ (maps : HashMap TcpEvent) where
  connect_traced :
      (h : Helpers) (sk : Sock) (t : Tracer maps)
      → IsTraced maps t h sk
      → trace_tcp_connect maps h sk t ≡ record t {
        pending_connects = (maps.update t.pending_connects (pid_of h) (connect_event h sk)).1;
        events = submit h.slot (connect_event h sk) t.events;
      }
  unfolding trace_tcp_connect
  connect_traced h sk t v = rw (v.passes, should_filter)

  pending_after :
      (h : Helpers) (sk : Sock) (t : Tracer maps)
      → IsTraced maps t h sk
      → maps.lookup (trace_tcp_connect maps h sk t).pending_connects (pid_of h)
        ≡ some (connect_event h sk)
  pending_after h sk t v =
      rw (connect_traced h sk t v, maps.lookup-update _ _ _ v.kept, ==_self (pid_of h))

  close_pending :
      (h : Helpers) (sk : Sock) (t : Tracer maps) (slot ev : TcpEvent)
      → h.slot ≡ some slot
      → maps.lookup t.pending_connects (pid_of h) ≡ some ev
      → trace_tcp_close maps h sk t ≡ record t {
        pending_connects = maps.delete t.pending_connects (pid_of h);
        events = t.events ++ (close_event ev h sk ∷ []);
      }
  unfolding trace_tcp_close
  close_pending h sk t slot ev given pending = rw (given, trace_tcp_close, pending, close_into)

  -- The hooks of other processes leave the entry of a process alone.
  trace-lookup_other :
      (k : Hook) (p : ℕ) (t : Tracer maps)
      → process_of k ≢ p
      → maps.lookup (trace maps k t).pending_connects p ≡ maps.lookup t.pending_connects p
  unfolding trace trace_tcp_connect trace_tcp_close
  trace-lookup_other (connects h sk) p t other =
      elim (Bool-cases (should_filter t.filters (pid_of h) (bswap16 sk.skc_dport))) [
        | inl filtered ↦ rw (filtered, trace_tcp_connect)
        | inr passes ↦
            elim (Bool-cases (maps.update t.pending_connects (pid_of h) (connect_event h sk)).0) [
              | inl kept ↦ rw (
                passes,
                trace_tcp_connect,
                maps.lookup-update _ _ _ kept,
                ==_ne (pid_of h) p other,
              )
              | inr full ↦ rw (passes, trace_tcp_connect, maps.lookup-update_failed _ _ _ full)
            ]
      ]
  trace-lookup_other (closes h sk) p t other = elim (Option-cases h.slot) [
    | inl no_room ↦ rw (no_room, trace_tcp_close)
    | inr (slot, room) ↦ elim (Option-cases (maps.lookup t.pending_connects (pid_of h))) [
      | inl nothing ↦ rw (room, trace_tcp_close, nothing, close_into)
      | inr (ev, pending) ↦
          rw (
            room,
            trace_tcp_close,
            pending,
            close_into,
            maps.lookup-delete,
            ==_ne (pid_of h) p other,
          )
    ]
  ]

  trace_all-lookup_others :
      (ks : List Hook) (p : ℕ) (t : Tracer maps)
      → AllOthers p ks
      → maps.lookup (trace_all maps ks t).pending_connects p ≡ maps.lookup t.pending_connects p
  unfolding trace_all
  trace_all-lookup_others [] p t h = refl
  trace_all-lookup_others (k ∷ ks) p t h =
      trace_all-lookup_others ks p (trace maps k t) h.1 ∙ trace-lookup_other k p t h.0

  trace_all-append :
      (ks ls : List Hook) (t : Tracer maps)
      → trace_all maps (ks ++ ls) t ≡ trace_all maps ls (trace_all maps ks t)
  unfolding trace_all
  trace_all-append [] ls t = refl
  trace_all-append (k ∷ ks) ls t = trace_all-append ks ls (trace maps k t)

  -- A connect that passes the filters and has room in both maps submits one event, with the process, the
  -- user, the name and the time of the call and the addresses and ports of the socket. If then only
  -- other processes call the hooks, the close that follows, for which the ring buffer has room, submits
  -- one event with the process, user, name, addresses and ports of the connect, its own time, and the
  -- bytes that the socket counts then; and the connect is no longer pending.
  pub close-connect :
      (hc hd : Helpers) (a b : Sock) (between : List Hook) (t : Tracer maps) (slot slot' : TcpEvent)
      → IsTraced maps t hc a
      → pid_of hd ≡ pid_of hc
      → hc.slot ≡ some slot
      → hd.slot ≡ some slot'
      → AllOthers (pid_of hc) between
      → let begun = trace_all maps (connects hc a ∷ []) t in
        let before = trace_all maps between begun in
        let after = trace_all maps (connects hc a ∷ between ++ (closes hd b ∷ [])) t in
        (begun.events ≡ t.events ++ (connect_seen hc a ∷ []))
        × (after.events ≡ before.events ++ (close_seen hc hd a b ∷ []))
        × (maps.lookup after.pending_connects (pid_of hc) ≡ none)
  unfolding trace_all trace
  close-connect hc hd a b between t slot slot' v same given given' others = (
    rw (connect_traced hc a t v, given),
    ap (λ (u : Tracer maps). u.events) (split ∙ closed),
    rw (split ∙ closed, maps.lookup-delete, same, ==_self (pid_of hc)),
  )
    where
      t₁ : Tracer maps
      t₁ = trace_tcp_connect maps hc a t

      t₂ : Tracer maps
      t₂ = trace_all maps between t₁

      split :
          trace_all maps (connects hc a ∷ between ++ (closes hd b ∷ [])) t
          ≡ trace_tcp_close maps hd b t₂
      split = trace_all-append between (closes hd b ∷ []) t₁

      closed : trace_tcp_close maps hd b t₂ ≡ record t₂ {
        pending_connects = maps.delete t₂.pending_connects (pid_of hd);
        events = t₂.events ++ (close_event (connect_event hc a) hd b ∷ []);
      }
      closed = close_pending hd b t₂ slot' (connect_event hc a) given' (
          ap (maps.lookup t₂.pending_connects) same
          ∙ trace_all-lookup_others between (pid_of hc) t₁ others
          ∙ pending_after hc a t v)

  -- A process that connects a second socket before it closes the first: the close event of the
  -- first carries the addresses and ports of the second, with the bytes of the first.
  pub close_misattributes :
      (hb hc : Helpers) (a b : Sock) (t : Tracer maps) (slot : TcpEvent)
      → IsTraced maps t hb b
      → pid_of hc ≡ pid_of hb
      → hc.slot ≡ some slot
      → let t' = trace_all maps (connects hb b ∷ closes hc a ∷ []) t in
        (ev : TcpEvent) × (t'.events ≡ (trace maps (connects hb b) t).events ++ (ev ∷ []))
        × (ev.src_ip ≡ b.skc_rcv_saddr)
        × (ev.dst_ip ≡ b.skc_daddr)
        × (ev.src_port ≡ b.skc_num)
        × (ev.dst_port ≡ bswap16 b.skc_dport)
        × (ev.bytes_tx ≡ a.bytes_sent)
        × (ev.bytes_rx ≡ a.bytes_received)
  unfolding trace_all
  close_misattributes hb hc a b t slot v same given = (
    close_event (connect_event hb b) hc a,
    ap (λ (u : Tracer maps). u.events)
        (close_pending hc a (trace_tcp_connect maps hb b t) slot (connect_event hb b) given (
          ap (maps.lookup (trace_tcp_connect maps hb b t).pending_connects) same
          ∙ pending_after hb b t v)),
    refl,
    refl,
    refl,
    refl,
    refl,
    refl,
  )
