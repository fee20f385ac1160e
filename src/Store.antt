-- ===== src/Store.antt =====
-- store/kv_command.go and store/kv_state_machine.go: the key-value store that the log's commands drive,
-- in memory and, if there is a database, in a bbolt bucket.
pub mod Command
pub mod Database
pub mod Machine
pub mod Bolt
pub mod Behaviour
pub mod Snapshots
pub mod Refinement
pub mod Replay
