-- ===== src/Net.antt =====
-- The package core/net: the address a peer is dialed at, and the encrypted connection.
pub mod Ip
pub mod Address
pub mod Conn
