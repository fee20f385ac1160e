-- ===== src/Raft.antt =====
-- Package raft.
pub mod Types
pub mod Membership
pub mod Node
pub mod Log
pub mod Keeps
pub mod Vote
pub mod Commit
pub mod Append
pub mod Apply
pub mod Election
pub mod Replicate
pub mod Steps
pub mod Cluster
pub mod Timers
