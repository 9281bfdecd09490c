-- ===== src/Identity.antt =====
-- internal/identity.
pub mod Manager
pub mod DeviceFlow
