-- ===== src/Upstream.antt =====
-- internal/upstream: the header policy, the outcome and the failures of authenticated calls.
pub mod Headers
pub mod Caller
