-- ===== src/DpdkSim.antt =====
-- src/dpdk_sim: the ring buffer, the memory pool over it, and the batch processor over both.
pub mod Fifo
pub mod SpscRing
pub mod MemoryPool
pub mod PacketProcessor
