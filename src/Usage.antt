-- ===== src/Usage.antt =====
-- internal/usage: native token counts.
pub mod Projection
pub mod Turn
