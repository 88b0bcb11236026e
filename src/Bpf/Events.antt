-- ===== src/Bpf/Events.antt =====
-- include/common.h: what the kernel programs hand to userspace. A `char` array is the list of its
-- bytes; padding is left out.
use ebpf_system_monitor.Base.{ℕ, List}

abbrev pub Bytes : Type 0
Bytes = List ℕ

pub record TcpEvent : Type 0 where
  pub timestamp_ns : ℕ
  pub pid : ℕ
  pub uid : ℕ
  pub comm : Bytes
  pub src_ip : ℕ
  pub dst_ip : ℕ
  pub src_port : ℕ
  pub dst_port : ℕ
  pub af : ℕ
  pub action : ℕ
  pub bytes_tx : ℕ
  pub bytes_rx : ℕ

pub record SyscallEvent : Type 0 where
  pub timestamp_ns : ℕ
  pub pid : ℕ
  pub uid : ℕ
  pub comm : Bytes
  pub syscall_nr : ℕ
  pub args : List ℕ

pub record NetStatsVal : Type 0 where
  pub packets : ℕ
  pub bytes : ℕ

abbrev pub tcp_action_connect : ℕ
tcp_action_connect = 0

abbrev pub tcp_action_close : ℕ
tcp_action_close = 1
