-- ===== src/Bpf/SyscallAudit/Tests.antt =====
-- Tests of the auditor, and the theorems at concrete calls.
use ebpf_system_monitor.Base.{
  ℕ, ◌≡◌, refl, Option, none, some, List, [], ◌∷◌, ◌++◌, ◌==◌, if◌then◌else◌, map, arith,
}
use ebpf_system_monitor.Bpf.Events.{SyscallEvent}
use ebpf_system_monitor.Bpf.SyscallAudit.{Auditor, audit_all}
use ebpf_system_monitor.Bpf.SyscallAudit.Report.{Call, seen, reported, audit_all-reported}

abbrev memory : SyscallEvent
memory = record { timestamp_ns = 0; pid = 0; uid = 0; comm = []; syscall_nr = 0; args = [] }

-- Process 9 of a user calls a number.
abbrev enter : ℕ → ℕ → Call
enter user nr = record {
  nr = nr;
  first = 1;
  second = 2;
  third = 3;
  others = 4 ∷ [];
  tgid = 9;
  tid = 8;
  gid = 5;
  uid = user;
  time = 77;
  name = 99 ∷ [];
  room = some memory;
}

-- User 0 and user 1000 are listed, 1000 with the value 0.
abbrev listed : ℕ → Option ℕ
listed uid = if uid == 0 then some 1 else if uid == 1000 then some 0 else none

abbrev auditor : Auditor
auditor = record { uid_whitelist = listed; events = [] }

abbrev calls : List Call
calls = enter 0 59 ∷ enter 1000 101 ∷ enter 500 257 ∷ enter 500 322 ∷ []

calls_reported :
    map (λ (e : SyscallEvent). e.syscall_nr) (audit_all (map seen calls) auditor).events
    ≡ 101 ∷ 322 ∷ []
unfolding audit_all
calls_reported = refl

audit_all-reported_example :
    audit_all (map seen calls) auditor ≡ record auditor { events = [] ++ reported listed calls }
audit_all-reported_example = audit_all-reported calls auditor (omega arith)
