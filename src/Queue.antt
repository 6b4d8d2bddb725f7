-- ===== src/Queue.antt =====
-- src/utils/thread_pool/queue: the queues between threads. `Ring` has the slots of a ring, `Spsc` the
-- `LockFreeQueue` of one producer and one consumer, `Mpsc` the `MPSCQueue`, `Mpmc` the `MPMCQueue`,
-- `Blocking` the locked ones.
pub mod Ring
pub mod Spsc
pub mod Mpsc
pub mod Mpmc
pub mod Blocking
mod Tests
