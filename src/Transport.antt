-- ===== src/Transport.antt =====
-- The package core/transport: the frames on the wire and the streams over one connection.
pub mod Frame
pub mod Mux
