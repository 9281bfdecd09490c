-- ===== src/Examples.antt =====
-- The theorems at concrete data, and runs of the definitions.
mod Streams
mod Caching
mod Prices
mod Models
mod Sessions
mod Identities
mod Frames
mod Shims
mod Logins
mod Calls
mod Buffered
mod Overrides
