-- ===== src/Transfer.antt =====
-- The package core/transfer: one module for each of its files.
pub mod Status
pub mod Manager
pub mod Cancel
pub mod Queue
pub mod Chunk
pub mod Path
