-- ===== src/Transport.antt =====
-- raftgrpc: the messages of the protocol over gRPC.
pub mod Messages
pub mod Convert
pub mod Server
pub mod Client
pub mod Dialing
pub mod Faithful
