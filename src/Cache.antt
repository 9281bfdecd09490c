-- ===== src/Cache.antt =====
-- internal/cache/value.go and registry.go: cached values, their refresh attempts and the registry.
pub mod Value
