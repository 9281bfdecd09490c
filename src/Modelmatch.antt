-- ===== src/Modelmatch.antt =====
-- internal/usage/modelmatch.
pub mod Matcher
