-- ===== src/Monitor/Resources/Proofs.antt =====
-- What run_monitor holds when it ends, and when it does not end.
use ebpf_system_monitor.Base.{
  ◌≡◌, inl, inr, Bool, true, false, not, ◌&&◌, arith, List, [], ◌∷◌, if◌then◌else◌, Bool-cases,
}
use ebpf_system_monitor.Monitor.CommandLine.{Config}
use ebpf_system_monitor.Monitor.Resources.{
  Resource, tcp_object, audit_object, connect_link, close_link, audit_link, http_server,
  http_thread, World, Platform, release, unwind, is_filtered, attach_and_poll, run_monitor,
}

-- The calls before the thread, and those after it.
abbrev pub attaches : Platform → Bool
attaches p =
    p.connect_found
    && (p.connect_attached
        && (p.close_found
            && (p.close_attached && (p.audit_found && (p.audit_attached && p.server_started)))))

abbrev pub polls : Platform → Bool
polls p = p.tcp_events_found && (p.tcp_ring_made && (p.syscall_events_found && p.audit_ring_made))

abbrev pub loads : Platform → Bool
loads p = p.tcp_opened && (p.tcp_loaded && (p.audit_opened && p.audit_loaded))

abbrev pub finds_filters : Platform → Config → Bool
finds_filters p cfg = if is_filtered cfg then p.filters_found else true

-- A call fails while the server's thread runs.
abbrev pub fails_late : Platform → Config → Bool
fails_late p cfg = loads p && (finds_filters p cfg && (attaches p && not (polls p)))

-- An object that was opened and did not load.
abbrev pub leaked : Platform → List Resource
leaked p =
    if p.tcp_opened && not p.tcp_loaded
    then tcp_object ∷ []
    else if p.tcp_opened && (p.tcp_loaded && (p.audit_opened && not p.audit_loaded))
    then audit_object ∷ []
    else []

-- What was acquired before the rings.
abbrev pub never_released : List Resource
never_released =
    http_thread ∷ http_server ∷ audit_link ∷ close_link ∷ connect_link ∷ audit_object ∷ tcp_object
    ∷ []

abbrev pub Ends : World → Bool → List Resource → Type 0
Ends w waits left = (w.hung ≡ waits) × (w.held ≡ (if waits then never_released else left))

abbrev loaded_objects : List Resource
loaded_objects = audit_object ∷ tcp_object ∷ []

later-Ends :
    (p : Platform)
    → Ends
        (attach_and_poll p loaded_objects
          (record { held = loaded_objects; server_stopped = false; hung = false }))
        (attaches p && not (polls p))
        []
unfolding attach_and_poll unwind release
later-Ends p = ground arith

-- If a call fails after the server's thread has started, run_monitor does not end: the thread's destructor
-- waits for a server that nobody stops, and all that was acquired before the ring buffers is kept. On every
-- other path it ends and releases all but an object that was opened and did not load.
pub run_monitor-Ends :
    (p : Platform) (cfg : Config) → Ends (run_monitor p cfg) (fails_late p cfg) (leaked p)
unfolding run_monitor unwind release
run_monitor-Ends p cfg =
    let end = later-Ends p in
    elim (Bool-cases (is_filtered cfg)) [
      | inl filtered ↦ rw filtered (ground arith)
      | inr all ↦ rw all (ground arith)
    ]
