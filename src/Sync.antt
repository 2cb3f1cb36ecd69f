-- ===== src/Sync.antt =====
-- include/libzth/sync.h: the primitives that fibers wait for each other with. Fibers are numbers.
-- A call runs without interruption up to the point where it blocks, and goes on when its fiber is
-- scheduled again: such a call is given as the piece from one such point to the next. What a call
-- does to other fibers is the list of those that it wakes, in order.
pub mod Queue
pub mod Mutex
pub mod Semaphore
pub mod Signal
pub mod Future
pub mod Mailbox
pub mod Gate
pub mod Api
