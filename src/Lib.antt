-- ===== src/Lib.antt =====
-- A verification library for the engine of this repository (engine/, with the wire structures of
-- api/p8_protocol.h): the part that takes samples, log records and trace events from the threads
-- of a program, cuts them into pool buffers and hands the buffers to a sink.
--
-- How the parts interact. A `cp8_memory_budget` limits the memory of the pools. A
-- `cp8_buffer_pool` hands out equal buffers and keeps blocked acquirers in a FIFO. Each thread has
-- a writer (`cp8_tls_writer`) whose records go through the buffers that it takes from the pool;
-- the worker of the core pulls the full ones, gives them to the sink, and recycles them.
--
-- Files and code:
--   Prelude     shared names, Boolean tests, lists with native lengths
--   Budget      engine/p8_memory_budget.hpp, .cpp: `try_reserve`, `release`; Budget/Interleaved
--               runs the threads in any order
--   Pool        engine/p8_buffer_pool.hpp, .cpp: every operation as one step under the mutex;
--               Pool/System is the pool with its clients
--   Writer      engine/p8_tls_writer.hpp, .cpp and the lines that the record writers share
--               (`lbl_discard`, the opening of a buffer)
--   Record      engine/p8_tls_writer.cpp: `serialize_attrs`, and the stores into the header of a
--               record that has gone on in other buffers; Record/Placed and Record/Whole follow
--               such a record
--   Log         engine/p8_log.hpp, .cpp: `cp8_log::send`, its gate, arguments, attributes and
--               rollback
--   Trace       engine/p8_trc.hpp, .cpp: begins and ends of spans, and the stack of open spans
--   Metric      engine/p8_mtk.cpp: `cp8_mtk::emit`
--   Format      engine/p8_log.cpp: `parse_format_string`, a character a round;
--               Format/Table is what a directive says of its argument
--   Sink        engine/p8_sink_file.cpp, p8_sink_null.cpp: batches and their byte counters
--   Service     engine/p8_core.cpp: the service buffers (`svc_reserve`) and the entries of
--               descriptors and strings (Service/Entries)
--   Registry    engine/p8_core.cpp: attributes and log modules
--   Metrics     engine/p8_core.cpp: `register_mtk`, `encode_attr_blob`
--   Resolve     engine/p8_core.cpp: `resolve_log_desc`, `resolve_trc_desc`
--   Drain       engine/p8_core.cpp: the list of writers, buffers acquired, released and submitted,
--               `collect_batch`, and the drop counters; Drain/Ended is the end of a writer
--   Batch       engine/p8_core.cpp: `flush_ready`
--   Worker      engine/p8_core.cpp: the rounds of `worker_main`, which puts Drain, Service and
--               Batch together
--   Thread      engine/p8_tls_writer.cpp, p8_log.cpp, p8_trc.cpp, p8_mtk.cpp: a thread with its
--               writers and the C functions that go through them; the Numbered modules of Writer,
--               Record, Log, Trace and Thread follow the numbers of the buffers
--   Api         engine/p8_core.cpp, p8_log.cpp, p8_mtk.cpp: the C functions of the registries
--   Setup       engine/p8_core.cpp: `parse_size`, `init_buffer_pool`; Setup/Engine is the
--               constructor of the core and its end, Setup/Header is `init_header`,
--               Setup/Configuration is engine/p8_config.cpp, `p8_config_read_file`
--   Lifecycle   engine/p8_core.cpp: `p8_initialize`, `p8_release`, `get_global_core` and the
--               reference count; Lifecycle/Process is a process with its threads
--   Wire        api/p8_protocol.h, engine/p8_static_checks.cpp: the layout of the structures
--   Examples    runs and instances of the theorems
--
-- Bounds and fuel. `size_t` counters wrap at 2 ^ 64, 32-bit ones at 2 ^ 32, and the sizes in
-- headers are cut to 16 bits. The copy of a record runs on fuel, as many rounds as there are
-- bytes, and each round copies one byte at least; so do the format parser, as many rounds as there
-- are characters, and the writes of a sink, as many as there are entries. `svc_reserve` gets two
-- rounds, and needs no third. The compare-and-swap loop of the budget runs over the schedule that
-- it is given, since only the scheduler bounds it.
--
-- Not modelled: threads and locks themselves (each critical section is one step), condition
-- variables, what the sinks print, and the third-party containers, whose lists and maps are taken
-- as lists. The names and the time of the host that the hello packet carries are its inputs. Shared memory, the JSON parser, the byte swap, the hash, the clock and the allocator are
-- arguments, and so is what `svc_reserve` finds for an attribute and whether a file sink takes the
-- hello packet. `va_arg` on a host of 64 bits gives the values of a log call, which are inputs; a
-- size that the code stores into 16 bits is cut to them. The constructor of the core is run with
-- what the host answers, and a worker that it starts is the one of Worker.
pub mod Prelude
pub mod Budget
pub mod Pool
pub mod Writer
pub mod Metric
pub mod Api
pub mod Batch
pub mod Drain
pub mod Format
pub mod Lifecycle
pub mod Log
pub mod Metrics
pub mod Record
pub mod Registry
pub mod Resolve
pub mod Service
pub mod Setup
pub mod Sink
pub mod Thread
pub mod Trace
pub mod Wire
pub mod Worker
mod Examples
