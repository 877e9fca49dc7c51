-- ===== src/Api.antt =====
-- The shared types of api/: buffers and the pools that they come from.
pub mod Buffer
