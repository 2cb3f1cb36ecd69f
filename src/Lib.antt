-- ===== src/Lib.antt =====
-- Zth is a library of cooperative multitasking in C++: fibers, the workers that run them, and the
-- objects that fibers wait for. This library models its headers, which hold the code.
--
-- - Time (include/libzth/time.h): TimeInterval in Time/Interval, Timestamp in Time/Stamp. The
--   fields are integers, and time_t has 64 bits. The clock is an argument of what reads it.
-- - Fiber (include/libzth/fiber.h): the states of a Fiber and the calls that change them, in Fiber,
--   with run(), which switches to a fiber. What the machine context and the configuration decide
--   there is the record Env. The fuel of run_fuel counts the jumps of run() back to its switch.
-- - Sync (include/libzth/sync.h): Mutex, Semaphore, Signal, Future, Mailbox and Gate. Each has a
--   queue of blocked fibers (Sync/Queue). A call is cut where its fiber blocks: it returns how that
--   piece ends, the object after it, and the fibers that it wakes. A history is a sequence of such
--   pieces, in any order in which the fibers can run, so that all interleavings are covered. For a
--   Mutex the alarms of trylock(Timestamp) are among them, and any fiber may call unlock().
--   The C functions are in Sync/Api.
--   m_signalled of a Signal is an integer without a bound; a count of a Semaphore has 32 bits.
-- - Worker (include/libzth/worker.h): the queues of a worker, schedule(), suspend() and resume(). A
--   switch to another fiber ends the model of schedule(), which returns true once it is switched
--   back. The fuel of schedule_from counts the jumps to `reschedule` and into the worker's fiber.
-- - List (include/libzth/list.h): the cyclic List, as pointers in a store of nodes.
-- - SortedList (include/libzth/list.h): the AA tree of a SortedList, as a data type of trees, with
--   m_head and m_size. Addresses order equal nodes, and are the numbers of the nodes.
-- - Waiter (src/waiter.cpp, include/libzth/waiter.h): the waitables in the order of their timeouts,
--   wait(), wakeup(), and the loop of entry() that wakes what is due. The fuel of run_due counts its
--   rounds; one more than waitables are due is enough. PeriodicWakeUp is in Waiter/Periodic.
-- - Poller (include/libzth/poller.h): PollerServer, the pollables of all clients and the items by
--   which they are polled. init() and doPoll() of the subclasses are arguments. PollerClient
--   (src/poller.cpp) is in Poller/Client; what happens while it is blocked is an argument too.
-- - Fsm (include/libzth/fsm14.h): the tables of state machines, in Fsm/Table, and the steps, the
--   stack and the inputs of a machine. Guards and actions are the user's: functions on a machine.
-- - SmallVector (include/libzth/util.h): small_vector, with the slots of its array, where a read of
--   one that is not constructed, or of the buffer as the wrong one of its two forms, is a fault.
-- - Shared (include/libzth/sync.h, include/libzth/util.h): SharedPointer and RefCounted, as a store
--   of what each pointer holds and of the count of each object.
-- - Perf (src/perf.cpp, include/libzth/perf.h): the buffer of events and the lines that PerfFiber
--   writes for them. Each fprintf() may fail. Its buffer for an identifier has room for 15
--   characters, and 10 are enough for 64 bits.
-- - Base: what these share.
--
-- A function of the code has the name of its method in the spelling of this library. Fibers and
-- nodes are numbers, of which 0 is the null pointer where the code has one. A zth_assert() of the
-- code is a condition on the caller. A fiber blocks by Worker::suspend(), and a woken one is
-- Worker::resume()d: for the objects of Sync, the fibers that are blocked are those in the queue.
--
-- Not modelled: the construction of a worker and its loop run(), the subclasses of the poller, the
-- real sleep of the waiter, clear() of the lists, run(), printing and the operators of state
-- machines, coroutines, strings, the load, the rate and the backtraces of perf.h, the C functions
-- but those in Sync/Api, and conversions of times. Hooks, debug prints and names have no effect on
-- what is modelled, and performance events only on Perf. Exceptions that allocation may throw are
-- left out. The switch of contexts is machine code.
pub mod Base
pub mod SmallVector
pub mod Shared
pub mod Perf
pub mod Time
pub mod List
pub mod SortedList
pub mod Fiber
pub mod Sync
pub mod Worker
pub mod Waiter
pub mod Poller
pub mod Fsm
