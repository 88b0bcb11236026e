-- ===== src/Lib.antt =====
-- ebpf-system-monitor: a model of the program, and theorems about it.
--
-- The program has a kernel side, three BPF programs that report TCP connections, suspicious system
-- calls and packet counts, and a user side that collects them, prints them and serves them over
-- HTTP. Beside these stands a packet pipeline in the style of DPDK: a lock-free ring, a memory pool
-- whose free list is such a ring, and a batch processor that joins the two.
--
-- Which file models what. A `.antt` file has the name of its component; its children state and
-- prove.
--   DpdkSim/SpscRing: src/dpdk_sim/spsc_ring.h, class SpscRing. The state is the two counters and
--     the array; init, enqueue, dequeue, enqueue_burst, dequeue_burst, size, empty and full are the
--     methods of these names, store_burst and load_burst the loops of the bursts.
--   DpdkSim/SpscRing/Threads: the same methods load by load and store by store, for the producer's
--     and the consumer's thread in any order; `Order`, `Races` and `Returns` are about them,
--     `TwoProducers` is about a ring that two threads send into, `Sizes` about size and full in a third
--     thread.
--   DpdkSim/Fifo: the bounded queue that a ring promises to be.
--   DpdkSim/MemoryPool: src/dpdk_sim/memory_pool.h, class MemoryPool, with its methods by name.
--     Blocks are numbered: `block i` is the address of `storage_[i]`, `null` is nullptr.
--   DpdkSim/PacketProcessor: src/dpdk_sim/packet_processor.h, class BatchProcessor. The bytes of the
--     packets are a function from blocks; the user's handler is a parameter. Its child Threads: the
--     parts of process_burst among the calls of the producer.
--   Bpf/Events: include/common.h. Bpf/HashMap: the kernel's hash maps, which are not the
--     repository's code, as an interface with the behaviour that the kernel documents.
--   Bpf/TcpTracer: bpf/tcp_tracer.bpf.c. Bpf/NetStats: bpf/net_stats.bpf.c.
--   Bpf/SyscallAudit: bpf/syscall_audit.bpf.c.
--   StatsReporter: src/stats_reporter.h, the class StatsReporter, fed with the tracer's events. The
--     hash table is an association list; std::sort and inet_ntop are parameters. `Table`, `Count`
--     and `Top` are about its operations, `Format` holds the texts of a row.
--   Http/RequestStats: src/http/request_stats.h, classes RequestStats and RequestTimer; the clock is
--     an input. `Table`, `Sums` and `Timer` are about them.
--   Http/Server: src/http/async_server.h, handle_client with parse_path and build_response; what each
--     read returns is an input. Http/Texts: the literal texts of a response.
--   Http/Server/EventLoop: the same class with its descriptors and buffers, from start to the
--     destructor; an event of epoll_wait comes with what accept4 and read then give.
--   Http/ThreadPool: src/http/thread_pool.h, class ThreadPool. Http/ThreadPool/Schedule: the steps of
--     its threads in any order.
--   Http/Metrics: src/http/metrics.h. `Lines` reads the text as a scraper does; `Connections` and
--     `Processor` are about the two texts, `Ports` about the ports in them, `Scrape` about events that
--     come in the middle.
--   Monitor: src/monitor.cpp, the callbacks and http_route. Monitor/CommandLine: parse_args and main.
--     Monitor/MainLoop: the loop of run_monitor. Monitor/Resources: run_monitor and
--     src/ebpf_loader.h with the objects they acquire and release. Monitor/Filters: set_filter, and the
--     events that the options then select. `Pipeline` and `Routes` join these
--     with the reporter and the server.
--   Monitor/Json: a reader of JSON, which is no part of the program; its children read the texts of
--     http_route and handle_tcp_event; `Served` joins them with the main loop and the server.
--   Base: what the components share: tests on numbers, machine words with their wrap-around, lists,
--     and the bit mask that a ring indexes with.
--
-- State is passed along: an operation maps the state before to its result and the state after. A
-- BPF helper's result is an input of the call that uses it. A uint64_t or size_t counter is a number
-- with its wrap-around written out (add64, sub64). Loops are structural recursion on their bound or
-- on their input. The one use of fuel is to_string, which has 20 digits: enough for 64 bits.
--
-- Not modelled: in the pool and the processor a call of a ring is one step, as `Order` of
-- the ring's threads allows for one producer and one consumer, which the free list has as long as the
-- producer never frees: the theorems on the processor's threads are for a pool no larger than the ring;
-- reorderings
-- within a thread other than that it sees the other's counter late; the padding of structures; the
-- time that helpers return; the banner and the usage text of the main program; the constructors that
-- move an object of libbpf and `get`, which nothing calls; build files and dashboards. What `printf` prints for a name
-- without a NUL is left open. The server's
-- thread reads the table under the lock of the main loop's writes, so what it finds is the table after
-- some of the events.
pub mod Base
pub mod Bpf
pub mod DpdkSim
pub mod Http
pub mod Monitor
pub mod StatsReporter
