-- ===== src/Shim.antt =====
-- internal/shim: the composable inference extensions.
pub mod ModelOverride
pub mod Chain
pub mod Json
pub mod UsageMeter
pub mod ItemIds
pub mod Watchdog
