-- ===== src/Lib.antt =====
-- A verification library for hrx-system-rs, the Rust port of the hrx runtime over IREE's HAL.
--
-- The runtime (crates/hrx-libhrx) exports a C interface of opaque handles. A client initialises an
-- accelerator (runtime.rs), takes a device from its table, allocates buffers (buffer.rs), and
-- submits work: in recorded batches on a stream (stream.rs) or directly (queue_ops.rs). Submissions
-- are ordered by timeline semaphores (semaphore.rs) and fences (fence.rs). Kernels come from
-- executables (executable.rs) or from modules of VM code (module.rs) that are called with lists of
-- values (value_list.rs) and views of buffers (buffer_view.rs). Every function reports a status
-- (common.rs, status.rs). What the runtime does to the world it does by calls into IREE and libc.
-- Beside it, a HIP program is run with a library in HIP's place (hip-intercept) that loads the real
-- one and an interceptor: one that logs every call (hip-logging), one that follows the buffers (hip-
-- buffer-tracer), or one that does nothing (hip-noop).
--
-- How it is modelled:
--   Base        names passed on from the libraries, Boolean tests, lists, 64-bit words
--   Ffi         the monad of all operations: a state, and the trace of the calls into IREE and libc,
--               newest first. An environment answers each call as a function of the whole trace, so
--               a theorem over all environments covers every behaviour of the foreign code. A run
--               ends in `done` or in `fault`, which is a panic or a write out of bounds.
--   Hal         the calls of streams, semaphores and queue operations, as a data type; Hal/Ledger
--               reads off a trace which command buffers it leaves open
--   Status      crates/hrx-libhrx/src/common.rs and status.rs: a status is a value, and in Status/Payload
--               also the blocks of memory that it is made of
--   Semaphore   crates/hrx-libhrx/src/semaphore.rs
--   Queue       crates/hrx-libhrx/src/queue_ops.rs
--   Stream      crates/hrx-libhrx/src/stream.rs: the record HrxStreamS is the object behind a handle,
--               Stream/Timeline and Stream/Recording hold the exported functions under their names
--   Runtime     crates/hrx-libhrx/src/runtime.rs: Globals is the state behind the lock, Runtime/Shared
--               its reference count, Runtime/Cpu and Runtime/Gpu the accelerators
--   Buffer      crates/hrx-libhrx/src/buffer.rs and handle.rs: the state is the Arc of one handle;
--               Buffer/Memory holds the allocator's functions
--   Pool        crates/hrx-libhrx/src/pool.rs, and in Pool/Allocate hrx_buffer_allocate of buffer.rs, which
--               joins a stream, a buffer and a pool
--   Device      crates/hrx-libhrx/src/device.rs, and the fixed text arrays of runtime.rs
--   Objects     the smaller objects of crates/hrx-libhrx: Fence is fence.rs, ValueList value_list.rs,
--               BufferView buffer_view.rs, Executable executable.rs and Module module.rs; the state of an
--               operation on a module is its Arc with the functions that were looked up in it
--   Handle      crates/hrx-libhrx/src/handle.rs for an object of any type, whose fields drop in order;
--               Handle/Objects lists what each object gives back
--   Tracer      crates/hip-buffer-tracer/src/lib.rs: State is the state behind the lock, Tracer/Wrappers
--               and Tracer/Forwarding the intercepted functions, Tracer/Dump the dump of the tracked
--               buffers, Tracer/Text the printing and reading of numbers, Tracer/Setup the environment
--               variables, Tracer/Abstract the buffer table as a bag of entries
--   Hip         crates/hip-function-table/src/lib.rs, whose slots are in Hip/Table; Hip/Process is the
--               process that Hip/Intercept (crates/hip-intercept/src/lib.rs) and Hip/Logging
--               (crates/hip-logging/src/lib.rs) run in: their statics, and the calls into the dynamic
--               loader, the backend and libc. Hip/Noop is crates/hip-noop/src/lib.rs
--   Examples    runs on concrete inputs
--
-- A function f of the source is the definition f; where Rust returns early on an error, a helper by
-- clauses takes the status that was tested. A value written through an out pointer stands beside the
-- status as an option. Handles and pointers are numbers and NULL is 0; the fields that are read
-- through handles of other objects come from a parameter (Objects, AllocatorHandles, Handles).
-- 64-bit sums wrap as in a release build (add_u64). The loops run over lists and need no fuel, and a
-- submission's lists have the room of 16 entries that the source's arrays have; printing a number
-- takes as many rounds as the widest word has digits, 20 in decimal and 16 in hexadecimal. The loops
-- over a view's shape count down the rank, and the real table is filled by recursion over the list
-- of its slots. Calls on the global state hold its lock, and a stream or a buffer is used by one
-- thread at a time, as its documentation asks, so a run is a sequence of calls.
--
-- HIP is started and called by one thread at a time. The text behind a pointer, the text of a float,
-- what kind of library an interceptor is, and which slots the buffer tracer's real table has filled are
-- parameters; the tracer's wrappers are called after its initialisation.
--
-- Not modelled: hrx_status_to_string and the text of messages beyond its source; the host allocator,
-- which forwards to libc or to the client's functions; the bindings to IREE, which are foreign
-- declarations; the opening of the buffer tracer's file, and the words of its lines. The functions
-- of crates/hip-intercept/src/passthrough_generated.rs are one function, passthrough, over their
-- names.
pub mod Base
pub mod Ffi
pub mod Status
pub mod Hal
pub mod Semaphore
pub mod Queue
pub mod Stream
pub mod Runtime
pub mod Buffer
pub mod Pool
pub mod Device
pub mod Tracer
pub mod Objects
pub mod Handle
pub mod Hip
pub mod Examples
