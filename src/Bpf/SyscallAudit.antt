-- ===== src/Bpf/SyscallAudit.antt =====
-- bpf/syscall_audit.bpf.c: suspicious system calls reported. `nr` is the bit pattern of the `long`;
-- what the helpers return in one call is in `Enter`, as in the tracer.
pub mod Report
mod Tests
use ebpf_system_monitor.Base.{
  ℕ, ◌/◌, ◌%◌, ◌^◌, Bool, true, false, not, ◌&&◌, ◌||◌, Option, none, some, List, [], ◌∷◌, ◌++◌,
  ◌==◌, if◌then◌else◌, get_or,
}
use ebpf_system_monitor.Bpf.Events.{Bytes, SyscallEvent}

abbrev pub sys_execve : ℕ
sys_execve = 59

abbrev pub sys_execveat : ℕ
sys_execveat = 322

abbrev pub sys_ptrace : ℕ
sys_ptrace = 101

abbrev pub sys_process_vm_readv : ℕ
sys_process_vm_readv = 310

abbrev pub sys_process_vm_writev : ℕ
sys_process_vm_writev = 311

unfoldable pub is_suspicious : ℕ → Bool
is_suspicious nr =
    nr == sys_execve
    || (nr == sys_execveat
        || (nr == sys_ptrace || (nr == sys_process_vm_readv || nr == sys_process_vm_writev)))

-- The context of the tracepoint, and what the helpers return.
pub record Enter : Type 0 where
  pub id : ℕ
  pub args : List ℕ
  pub pid_tgid : ℕ
  pub uid_gid : ℕ
  pub ktime_ns : ℕ
  pub comm : Bytes
  pub slot : Option SyscallEvent

pub record Auditor : Type 0 where
  pub uid_whitelist : ℕ → Option ℕ
  pub events : List SyscallEvent

-- `wl && *wl`
abbrev pub is_listed : Option ℕ → Bool
is_listed none = false
is_listed (some v) = not (v == 0)

abbrev pub uid_of : Enter → ℕ
uid_of e = e.uid_gid % 2 ^ 32

-- The fields that the program fills; it fills them all.
abbrev pub event_of : Enter → SyscallEvent
event_of e = record {
  timestamp_ns = e.ktime_ns;
  pid = e.pid_tgid / 2 ^ 32 % 2 ^ 32;
  uid = uid_of e;
  comm = e.comm;
  syscall_nr = e.id;
  args = get_or e.args 0 0 ∷ get_or e.args 1 0 ∷ get_or e.args 2 0 ∷ [];
}

unfoldable pub audit_syscall : Enter → Auditor → Auditor
unfolding is_suspicious
audit_syscall e a =
    if not (is_suspicious e.id)
    then a
    else if is_listed (a.uid_whitelist (uid_of e))
    then a
    else elim e.slot [ none ↦ a | some slot ↦ record a { events = a.events ++ (event_of e ∷ []) } ]

unfoldable pub audit_all : List Enter → Auditor → Auditor
unfolding audit_syscall
audit_all [] a = a
audit_all (e ∷ es) a = audit_all es (audit_syscall e a)
