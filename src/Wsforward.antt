-- ===== src/Wsforward.antt =====
-- internal/wsforward.
pub mod Session
