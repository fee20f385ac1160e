-- ===== src/Lib.antt =====
-- RV-Key-Value: its Raft core, its key-value state machine, and what connects them to a disk, to other
-- nodes and to clients. A Raft node's state and its operations, the way elections, replication,
-- commitment, application and compaction use them, the store that committed commands drive, the calls
-- between nodes, the HTTP handlers, and what makes them correct.
--
-- The program. A `RaftNode` (raft/node.go) is one record behind a mutex. Every exported method is one
-- critical section on it: gRPC handlers call RequestVote, PreVote and HandleAppendEntries; the
-- election timer calls StartElection (raft/election.go); the heartbeat loop calls replicateOnce
-- (raft/heartbeat.go); HTTP handlers call Propose (raft/proposal.go) and ApplyCommitted. A node
-- persists its state through a StableStore, and feeds committed commands to a StateMachine.
--
-- The files.
--   Base: what the modules share: Boolean tests, lists over native numbers, 64-bit words, calls that
--     may panic (`Run`), and maps (Base/Map).
--   Raft/Types: raft/types.go. Raft/Membership: raft/membership.go; the JSON codec is the parameter
--     `MembershipJson`.
--   Raft/Node: the record, NewRaftNode, persistLocked and the role changes. Raft/Log: the index
--     arithmetic and appendEntriesToLogLocked. Raft/Vote: RequestVote, PreVote and
--     stepDownForHigherTerm. Raft/Commit: the leader's progress and advanceCommitLocked. Raft/Append:
--     HandleAppendEntries, AppendLocal and BuildAppendEntries. Raft/Apply: ApplyCommitted, membership
--     changes and Compact. All of them model raft/node.go.
--   Raft/Election: StartElection and PreVoteElection. Raft/Replicate: replicateOnce and
--     ProposeWithRetryInterval. Raft/Steps: the operations as data, without
--     SetVotedFor and the changes of the membership, and a node's histories.
--   Raft/Timers: RunElectionTimer (raft/election_timer.go), RunHeartbeatLoop (raft/heartbeat.go) and
--     raft/timing.go, over lists of events. Raft/Cluster: nodes that vote for each other.
--   Store/Command: store/kv_command.go. Store/Database and Store/Machine: store/kv_state_machine.go;
--     bbolt is the parameter `Database`, and the JSON codec the parameter `KvJson`.
--   Store/Bolt: store/bolt_store.go; the file is the parameter `StateFile`, and the JSON codec the
--     parameter `StateJson`.
--   Transport: raftgrpc/. Convert: convert.go. Server: server.go. Client: client.go; the generated
--     client and the connections are the parameters `RaftClient` and `Dialer`.
--   Http: client/http.go. Message: what the handlers read and write. Forward: LeaderForwarder; net/url
--     and the client of net/http are the parameter `HttpClient`. Proposing: proposeAndApply and
--     forwardToLeader. Api: the handlers.
--   Observability: observability/metrics.go; the collectors of Prometheus are the parameter
--     `Prometheus`.
--   Cmd: cmd/node/main.go. Peers: parsePeers. Applying: applyCommittedLoop. Logging: logNodeState.
--     Startup: how run opens the state machine.
--   Examples: runs at concrete nodes.
--
-- State and operations. `RaftNode D` has the fields of the Go struct, where `D` is the state of the
-- store; a nil map or slice is `none` where the code tests for nil. An operation takes a node to the
-- node after it, with the results of the Go method. A call that could index out of range or write to
-- a nil map returns in `Run`, so that a theorem about its result also says that it does not panic.
-- A uint64 is a natural number below 2^64, with wrap-around written out by `u64` and `sub64`.
--
-- Concurrency. A critical section is atomic, so a node's history is a sequence of operations. The
-- functions that leave the mutex between two sections take what other goroutines do there as an
-- argument, an `Effect`, and the answers of the peers in the order in which they arrive; an answer
-- list that ends early stands for calls that failed. Two functions are modelled as calls that run
-- alone, although the source leaves the mutex within them: ApplyCommitted, between nextCommittedEntry,
-- Apply and markApplied, and Apply of the key-value state machine, between its transaction and its
-- write to the map. What is said of them, and of the handlers and the loop that call them, is said of
-- calls that no other one of ApplyCommitted or Apply overlaps.
--
-- Well-formedness (`IsWellFormed`): the log's indices are the positions behind the compacted prefix,
-- lastIncludedIndex <= lastApplied <= commitIndex, the last index and the commit index leave room
-- below 2^64, and both progress maps are nil or neither is. A request of a leader is valid
-- (`IsValid`) if its previous entry has a term, and its indices fit 64 bits: HandleAppendEntries does
-- not check either, and takes a request with a previous index behind its log and the term 0.
--
-- HTTP. A handler is a function of the request, the node and the state machine, with what other
-- goroutines do in between and the attempts of its proposal as arguments; it comes to a `Progress`: its
-- proposal waits, or it has written one response. A context that is done is the error that it returns.
-- Which handler a path is for, and the redirects of unclean paths, are left to http.ServeMux.
--
-- Fuel. ApplyCommitted is a loop without a bound; `apply_committed` gives it one turn for each index
-- of the log behind the last applied one, and one more to see the end.
--
-- Not modelled: the generated code (proto/), and the rest of `run` in cmd/node/main.go, which reads
-- the flags, opens files and listeners, and starts the goroutines that the other modules model.
-- A cluster's membership is fixed in Raft/Cluster, and its nodes do not restart: the operations in
-- Raft/Steps are those that do not change the membership, without SetVotedFor, and a node becomes a
-- leader of a cluster by promoteCandidate alone, not by BecomeLeader, with the votes of a majority.
pub mod Base
pub mod Raft
pub mod Store
pub mod Transport
pub mod Http
pub mod Observability
pub mod Cmd
mod Examples
