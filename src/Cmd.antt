-- ===== src/Cmd.antt =====
-- cmd/node/main.go: the binary around a node.
pub mod Peers
pub mod Applying
pub mod Logging
pub mod Startup
