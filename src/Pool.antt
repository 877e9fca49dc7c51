-- ===== src/Pool.antt =====
-- The buffer pools of package pool.
pub mod Slab
pub mod Classes
pub mod Examples
