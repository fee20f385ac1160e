-- ===== src/Http.antt =====
-- client/http.go: the HTTP interface of a node.
pub mod Message
pub mod Forward
pub mod Proposing
pub mod Api
