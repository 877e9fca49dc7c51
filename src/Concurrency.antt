-- ===== src/Concurrency.antt =====
-- The queues of core/concurrency and internal/concurrency.
pub mod Queue
pub mod Ring
