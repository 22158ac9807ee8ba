-- ===== src/Worker.antt =====
-- internal/worker: the handling of one delivery, the workers' loop and the workers side by side, and
-- the retry delays.
pub mod Backoff
pub mod Processor
pub mod Dispatcher
pub mod Threads
