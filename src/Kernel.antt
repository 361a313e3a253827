-- ===== src/Kernel.antt =====
-- kernel/: scheduling, locking and the units built on them.
pub mod State
pub mod Isr
pub mod Mutex
pub mod Pipe
pub mod Worker
pub mod Socket
pub mod Watchdog
pub mod Handler
pub mod Interrupt
pub mod Scheduler
pub mod Locking
pub mod Semaphore
pub mod Signal
pub mod Generation
pub mod Barrier
pub mod Resource
pub mod Threads
mod Tests
