-- ===== src/Identity.antt =====
-- The package core/identity: the peers that are trusted.
pub mod Hex
pub mod TrustStore
