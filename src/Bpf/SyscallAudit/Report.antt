-- ===== src/Bpf/SyscallAudit/Report.antt =====
-- Which calls the auditor reports.
use ebpf_system_monitor.Base.{
  ℕ, zero, suc, ◌+◌, ◌*◌, ◌^◌, ◌<◌, ◌≡◌, refl, map, ◌∙◌, ap, sym, Bool, true, false, not, ◌&&◌,
  Option, none, some, List, [], ◌∷◌, ◌++◌, ◌==◌, if◌then◌else◌, arith, append_assoc, append-nil,
}
use ebpf_system_monitor.Bpf.Events.{Bytes, SyscallEvent}
use ebpf_system_monitor.Bpf.SyscallAudit.{
  Enter, Auditor, is_suspicious, is_listed, uid_of, event_of, audit_syscall, audit_all,
}

-- The calls that matter: execve, ptrace, execveat, process_vm_readv and process_vm_writev.
abbrev pub watched : List ℕ
watched = 59 ∷ 101 ∷ 322 ∷ 310 ∷ 311 ∷ []

abbrev pub is_in : ℕ → List ℕ → Bool
is_in n [] = false
is_in n (x ∷ xs) = if n == x then true else is_in n xs

is_suspicious-watched : (nr : ℕ) → is_suspicious nr ≡ is_in nr watched
unfolding is_suspicious
is_suspicious-watched nr = ground arith

-- A call of the system, as the kernel knows it.
pub record Call : Type 0 where
  pub nr : ℕ
  pub first : ℕ
  pub second : ℕ
  pub third : ℕ
  pub others : List ℕ  -- the arguments after the third
  pub tgid : ℕ
  pub tid : ℕ
  pub gid : ℕ
  pub uid : ℕ
  pub time : ℕ
  pub name : Bytes
  pub room : Option SyscallEvent  -- in the ring buffer

-- What the program sees of a call: the two identifiers of the process, and those of the user, come in
-- one word each.
abbrev pub seen : Call → Enter
seen k = record {
  id = k.nr;
  args = k.first ∷ k.second ∷ k.third ∷ k.others;
  pid_tgid = k.tgid * 2 ^ 32 + k.tid;
  uid_gid = k.gid * 2 ^ 32 + k.uid;
  ktime_ns = k.time;
  comm = k.name;
  slot = k.room;
}

-- The identifiers have 32 bits.
abbrev pub AllFit : List Call → Type 0
AllFit [] = Unit {0}
AllFit (k ∷ ks) = (k.tgid < 2 ^ 32) × (k.tid < 2 ^ 32) × (k.uid < 2 ^ 32) × AllFit ks

-- A user that the whitelist does not have, or has with the value 0.
abbrev pub is_audited : Option ℕ → Bool
is_audited none = true
is_audited (some zero) = true
is_audited (some (suc n)) = false

abbrev pub report_of : (ℕ → Option ℕ) → Call → List SyscallEvent
report_of whitelist k = elim k.room [
  | none ↦ []
  | some _ ↦
      if is_in k.nr watched && is_audited (whitelist k.uid)
      then record {
        timestamp_ns = k.time;
        pid = k.tgid;
        uid = k.uid;
        comm = k.name;
        syscall_nr = k.nr;
        args = k.first ∷ k.second ∷ k.third ∷ [];
      }
        ∷ []
      else []
]

abbrev pub reported : (ℕ → Option ℕ) → List Call → List SyscallEvent
reported whitelist [] = []
reported whitelist (k ∷ ks) = report_of whitelist k ++ reported whitelist ks

is_listed-is_audited : (o : Option ℕ) → is_listed o ≡ not (is_audited o)
is_listed-is_audited none = refl
is_listed-is_audited (some zero) = refl
is_listed-is_audited (some (suc n)) = ground arith

uid_lem : (k : Call) → k.uid < 2 ^ 32 → uid_of (seen k) ≡ k.uid
uid_lem k h = omega arith

pid_lem : (k : Call) → k.tgid < 2 ^ 32 → k.tid < 2 ^ 32 → (event_of (seen k)).pid ≡ k.tgid
pid_lem k h g = omega arith

event_of_lem :
    (k : Call)
    → k.tgid < 2 ^ 32
    → k.tid < 2 ^ 32
    → k.uid < 2 ^ 32
    → event_of (seen k) ≡ record {
      timestamp_ns = k.time;
      pid = k.tgid;
      uid = k.uid;
      comm = k.name;
      syscall_nr = k.nr;
      args = k.first ∷ k.second ∷ k.third ∷ [];
    }
event_of_lem k p t u = rw (pid_lem k p t, uid_lem k u)

audit_syscall_lem :
    (k : Call) (a : Auditor)
    → k.tgid < 2 ^ 32
    → k.tid < 2 ^ 32
    → k.uid < 2 ^ 32
    → audit_syscall (seen k) a ≡ record a { events = a.events ++ report_of a.uid_whitelist k }
unfolding audit_syscall
audit_syscall_lem k a p t u =
    rw (is_suspicious-watched k.nr, uid_lem k u, is_listed-is_audited (a.uid_whitelist k.uid))
      (ground (arith, append-nil a.events, event_of_lem k p t u))

-- Of calls whose identifiers have 32 bits, the auditor submits, in their order, an event for each that is
-- execve, execveat, ptrace, process_vm_readv or process_vm_writev, whose user, 0 included, is not in
-- the whitelist with a value other than 0, and for which the ring buffer has room. The event has the
-- time, process, user, name, number and first three arguments of the call. The whitelist stays.
pub audit_all-reported :
    (ks : List Call) (a : Auditor)
    → AllFit ks
    → audit_all (map seen ks) a ≡ record a { events = a.events ++ reported a.uid_whitelist ks }
unfolding audit_all
audit_all-reported [] a h =
    ap (λ (l : List SyscallEvent). record a { events = l }) (sym (append-nil a.events))
audit_all-reported (k ∷ ks) a h =
    ap (audit_all (map seen ks)) (audit_syscall_lem k a h.0 h.1 h.2)
    ∙ audit_all-reported ks (record a { events = a.events ++ report_of a.uid_whitelist k }) h.3
    ∙ ap (λ (l : List SyscallEvent). record a { events = l })
        (append_assoc a.events (report_of a.uid_whitelist k) (reported a.uid_whitelist ks))

-- User 0 too is skipped when the whitelist names it.
pub root_may_be_skipped :
    (e : Enter) (a : Auditor) (n : ℕ)
    → uid_of e ≡ 0
    → a.uid_whitelist 0 ≡ some (suc n)
    → audit_syscall e a ≡ a
unfolding audit_syscall
root_may_be_skipped e a n root listed = ground arith
