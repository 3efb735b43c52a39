-- ===== src/Sync.antt =====
-- co_async/generic: the synchronisation of coroutines by a futex. A system is what the coroutines
-- share and where each of them stands; its steps come in any order. The futex itself is the kernel's:
-- a wait may return at any time, with or without an error, and a notification has no effect that a
-- property here relies on.
pub mod Condition
pub mod Mutex
pub mod Queue
pub mod Semaphore
