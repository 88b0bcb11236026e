-- ===== src/Bpf.antt =====
-- bpf/ and include/common.h: the three kernel programs and the structures that they share with
-- userspace.
pub mod Events
pub mod HashMap
pub mod TcpTracer
pub mod NetStats
pub mod SyscallAudit
