-- ===== src/Monitor/Resources.antt =====
-- run_monitor and src/ebpf_loader.h: what is acquired, and what is released on each path. Whether a call of
-- libbpf or of the kernel succeeds is an input.
pub mod Proofs
use ebpf_system_monitor.Base.{
  ℕ, Bool, true, false, not, ◌&&◌, ◌||◌, List, [], ◌∷◌, ◌++◌, ◌==◌, if◌then◌else◌,
}
use ebpf_system_monitor.Monitor.CommandLine.{Config}

pub data Resource : Type 0 where
  tcp_object : Resource
  audit_object : Resource
  connect_link : Resource
  close_link : Resource
  audit_link : Resource
  http_server : Resource
  http_thread : Resource
  tcp_ring : Resource
  audit_ring : Resource

abbrev pub number_of : Resource → ℕ
number_of tcp_object = 0
number_of audit_object = 1
number_of connect_link = 2
number_of close_link = 3
number_of audit_link = 4
number_of http_server = 5
number_of http_thread = 6
number_of tcp_ring = 7
number_of audit_ring = 8

-- What is held, newest first; whether `http_srv.stop()` was called; whether a destructor waits for ever.
pub record World : Type 0 where
  pub held : List Resource
  pub server_stopped : Bool
  pub hung : Bool

abbrev pub without : Resource → List Resource → List Resource
without r [] = []
without r (x ∷ xs) = if number_of x == number_of r then without r xs else x ∷ without r xs

-- ~jthread asks for a stop, at which `http_srv.run()` does not look, and joins. That loop does not return
-- before the stop event (Http.Server.EventLoop.Running), which only stop() writes.
unfoldable pub join_thread : World → World
join_thread w =
    if w.server_stopped
    then record w { held = without http_thread w.held }
    else record w { hung = true }

-- The destructors.
unfoldable pub release : Resource → World → World
unfolding join_thread
release http_thread w = join_thread w
release tcp_object w = record w { held = without tcp_object w.held }
release audit_object w = record w { held = without audit_object w.held }
release connect_link w = record w { held = without connect_link w.held }
release close_link w = record w { held = without close_link w.held }
release audit_link w = record w { held = without audit_link w.held }
release http_server w = record w { held = without http_server w.held }
release tcp_ring w = record w { held = without tcp_ring w.held }
release audit_ring w = record w { held = without audit_ring w.held }

-- The destructors of a scope, of the newest object first.
unfoldable pub unwind : List Resource → World → World
unfolding release
unwind [] w = w
unwind (r ∷ rs) w = let w' = release r w in let rest = unwind rs w' in if w'.hung then w' else rest

-- The calls take the objects constructed so far, newest first, and what follows if they do not throw.
abbrev pub Next : Type 0
Next = List Resource → World → World

abbrev pub acquire : Resource → List Resource → World → Next → World
acquire r owned w next = next (r ∷ owned) (record w { held = r ∷ w.held })

-- The constructor of a BpfObject. If the load fails, there is no object yet, hence no destructor.
unfoldable pub bpf_object : Resource → Bool → Bool → List Resource → World → Next → World
unfolding unwind
bpf_object r opened loaded owned w next =
    if not opened
    then unwind owned w
    else if not loaded
    then unwind owned (record w { held = r ∷ w.held })
    else acquire r owned w next

unfoldable pub find_map : Bool → List Resource → World → Next → World
unfolding unwind
find_map found owned w next = if found then next owned w else unwind owned w

-- attach_kprobe with the BpfLink of its result; attach_tracepoint is the same.
unfoldable pub attach_kprobe : Resource → Bool → Bool → List Resource → World → Next → World
unfolding unwind
attach_kprobe r found attached owned w next =
    if not found
    then unwind owned w
    else if not attached
    then unwind owned w
    else acquire r owned w next

unfoldable pub attach_tracepoint : Resource → Bool → Bool → List Resource → World → Next → World
unfolding unwind
attach_tracepoint r found attached owned w next =
    if not found
    then unwind owned w
    else if not attached
    then unwind owned w
    else acquire r owned w next

-- The server, start() and the thread.
unfoldable pub serve : Bool → List Resource → World → Next → World
unfolding unwind
serve started owned w next =
    acquire http_server owned w
      λ owned' w'. if started then acquire http_thread owned' w' next else unwind owned' w'

unfoldable pub bpf_ring_buffer : Resource → Bool → List Resource → World → Next → World
unfolding unwind
bpf_ring_buffer r made owned w next = if made then acquire r owned w next else unwind owned w

-- What the calls return.
pub record Platform : Type 0 where
  pub tcp_opened : Bool
  pub tcp_loaded : Bool
  pub audit_opened : Bool
  pub audit_loaded : Bool
  pub filters_found : Bool
  pub connect_found : Bool
  pub connect_attached : Bool
  pub close_found : Bool
  pub close_attached : Bool
  pub audit_found : Bool
  pub audit_attached : Bool
  pub server_started : Bool
  pub tcp_events_found : Bool
  pub tcp_ring_made : Bool
  pub syscall_events_found : Bool
  pub audit_ring_made : Bool

-- The end of the body: the loop has ended, stop(), and the destructors.
unfoldable pub finish_body : List Resource → World → World
unfolding unwind
finish_body owned w = unwind owned (record w { server_stopped = true })

-- What follows the two objects and the filters.
unfoldable pub attach_and_poll : Platform → List Resource → World → World
unfolding attach_kprobe attach_tracepoint serve find_map bpf_ring_buffer finish_body
attach_and_poll p owned w =
    attach_kprobe connect_link p.connect_found p.connect_attached owned w λ owned w.
      attach_kprobe close_link p.close_found p.close_attached owned w λ owned w.
        attach_tracepoint audit_link p.audit_found p.audit_attached owned w λ owned w.
          serve p.server_started owned w λ owned w. find_map p.tcp_events_found owned w λ owned w.
            bpf_ring_buffer tcp_ring p.tcp_ring_made owned w λ owned w.
              find_map p.syscall_events_found owned w
                λ owned w. bpf_ring_buffer audit_ring p.audit_ring_made owned w finish_body

abbrev pub is_filtered : Config → Bool
is_filtered cfg = not (cfg.filter_pid == 0) || not (cfg.filter_port == 0)

unfoldable pub run_monitor : Platform → Config → World
unfolding bpf_object find_map attach_and_poll
run_monitor p cfg =
    bpf_object tcp_object p.tcp_opened p.tcp_loaded []
      (record { held = []; server_stopped = false; hung = false })
      λ owned w. bpf_object audit_object p.audit_opened p.audit_loaded owned w λ owned w.
        if is_filtered cfg
        then find_map p.filters_found owned w (attach_and_poll p)
        else attach_and_poll p owned w
