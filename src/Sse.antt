-- ===== src/Sse.antt =====
pub mod Frame
pub mod Pump
pub mod Lines
pub mod Data
pub mod Reader
