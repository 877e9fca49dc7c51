-- ===== src/Session.antt =====
-- Package internal/session. A Go string is the list of its bytes, a Go map an association list.
pub mod Map
pub mod Context
pub mod Manager
pub mod Examples
