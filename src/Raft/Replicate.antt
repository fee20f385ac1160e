-- ===== src/Raft/Replicate.antt =====
-- raft/heartbeat.go and raft/proposal.go: a leader sends its entries to the peers and takes in their
-- answers, in the order in which these arrive; a proposal repeats that until its entry is committed.
pub mod Rounds
pub mod Proposals
use rv_key_value.Base.{
  ℕ, suc, ◌+◌, String, Bool, Option, none, some, List, [], ◌∷◌, not, ltb, ◌&&◌, if◌then◌else◌,
  length, get_elem?, take, u64, Run, ret, ◌>>=◌,
}
use rv_key_value.Raft.Types.{
  Bytes, LogEntry, StableStore, Error, message, not_leader, AppendEntriesRequest,
  AppendEntriesResponse,
}
use rv_key_value.Raft.Membership.{MembershipJson}
use rv_key_value.Raft.Node.{RaftNode, is_leader}
use rv_key_value.Raft.Vote.{step_down_for_higher_term}
use rv_key_value.Raft.Commit.{
  ensure_leader_progress, record_replication_success, record_replication_failure, is_committed,
}
use rv_key_value.Raft.Append.{build_append_entries, append_local, empty_entry}
use rv_key_value.Raft.Election.{Effect}

-- appendRequest
pub record AppendRequest : Type 0 where
  pub peer_id : String
  pub req : AppendEntriesRequest

-- What replicateOnce waits for: the end of its context, a call that failed, or the answer to the
-- request at a position, with what other goroutines do before the critical sections that follow.
pub data Reply (D : Type 0) : Type 0 where
  context_done : Error → Reply D
  failed : Reply D
  answered : ℕ → AppendEntriesResponse → Effect D → Effect D → Effect D → Reply D

-- A call of replicateOnce, as its environment runs it: the state of the context and the effects
-- before the request at each position is built, and the replies.
pub record Round (D : Type 0) : Type 0 where
  pub before_peers : Effect D
  pub context_at : ℕ → Option Error
  pub before_request : ℕ → Effect D
  pub replies : List (Reply D)

module _ {D : Type 0} where
  -- The first loop of replicateOnce: a request for each peer, or the error that stops it.
  unfoldable pub build_requests :
      Round D → ℕ → List String → RaftNode D → Run (RaftNode D × List AppendRequest × Option Error)
  build_requests round i [] n = ret (n, [], none)
  build_requests round i (p ∷ ps) n =
      let n1 = round.before_request i n in
      let later = build_requests round (suc i) ps n1 in
      elim (round.context_at i) [
        | some err ↦ ret (n, [], some err)
        | none ↦ do
          (req, err) ← build_append_entries p n1
          elim err [
            | some e ↦ ret (n1, [], some e)
            | none ↦ do
              (n2, requests, err') ← later
              ret (n2, record { peer_id = p; req = req } ∷ requests, err')
          ]
      ]

  -- The part of an iteration behind the step down.
  unfoldable pub record_reply :
      AppendRequest → AppendEntriesResponse → RaftNode D → Run (RaftNode D × Option Error)
  record_reply request resp n =
      if resp.success
      then record_replication_success request.peer_id
          (u64 (request.req.prev_log_index + length request.req.entries)) n
      else record_replication_failure request.peer_id n

  -- The second loop of replicateOnce. `stop_at` is `stopWhenCommitted`.
  unfoldable pub take_replies :
      ⦃stable : StableStore D⦄
      → ℕ
      → List AppendRequest
      → List (Reply D)
      → RaftNode D
      → Run (RaftNode D × Option Error)
  take_replies ⦃stable⦄ stop_at requests [] n = ret (n, none)
  take_replies ⦃stable⦄ stop_at requests (context_done err ∷ rest) n = ret (n, some err)
  take_replies ⦃stable⦄ stop_at requests (failed ∷ rest) n = take_replies stop_at requests rest n
  take_replies ⦃stable⦄ stop_at requests (answered i resp e1 e2 e3 ∷ rest) n =
      elim (get_elem? requests i) [
        | none ↦ take_replies stop_at requests rest n
        | some request ↦
            let (n1, stepped_down, err) = step_down_for_higher_term resp.term (e1 n) in
            elim err [
              | some e ↦ ret (n1, some e)
              | none ↦ if stepped_down then ret (n1, none) else (do
                (n2, err') ← record_reply request resp (e2 n1)
                elim err' [
                  | some e ↦ ret (n2, some e)
                  | none ↦
                      if resp.success && ltb 0 stop_at && is_committed (e3 n2) stop_at
                      then ret (e3 n2, none)
                      else take_replies stop_at requests rest (e3 n2)
                ])
            ]
      ]

  unfoldable pub receive :
      ⦃stable : StableStore D⦄
      → ℕ
      → Round D
      → RaftNode D × List AppendRequest × Option Error
      → Run (RaftNode D × Option Error)
  unfolding take_replies
  receive ⦃stable⦄ stop_at round (n, requests, some err) = ret (n, some err)
  receive ⦃stable⦄ stop_at round (n, requests, none) =
      take_replies stop_at requests (take (length requests) round.replies) n

  -- replicateOnce
  unfoldable pub replicate_once :
      ⦃stable : StableStore D⦄ → ℕ → Round D → RaftNode D → Run (RaftNode D × Option Error)
  unfolding receive build_requests
  replicate_once ⦃stable⦄ stop_at round n = do
    n1 ← ensure_leader_progress n
    let n2 = round.before_peers n1
    built ← build_requests round 0 n2.peers n2
    receive stop_at round built

-- An iteration of a proposal's loop: the round of replication, with what others do before each look
-- at the node, and how the wait for the retry ends.
pub record Attempt (D : Type 0) : Type 0 where
  pub before_check : Effect D
  pub before_state : Effect D
  pub round : Round D
  pub before_recheck : Effect D
  pub wait : Option Error

-- How a proposal stands: it has returned an entry and an error, or still waits for its next attempt.
pub data Proposal (D : Type 0) : Type 0 where
  returned : RaftNode D → LogEntry → Option Error → Proposal D
  waiting : RaftNode D → Proposal D

module _ {D : Type 0} where
  -- The loop of ProposeWithRetryInterval.
  unfoldable pub propose_loop :
      ⦃stable : StableStore D⦄ → Bool → LogEntry → List (Attempt D) → RaftNode D → Run (Proposal D)
  propose_loop ⦃stable⦄ has_client entry [] n = ret (waiting n)
  propose_loop ⦃stable⦄ has_client entry (a ∷ rest) n =
      let n1 = a.before_check n in
      let n2 = a.before_state n1 in
      if is_committed n1 entry.index
      then ret (returned n1 entry none)
      else if not (is_leader n2.state)
      then ret (returned n2 entry (some (not_leader n2.state)))
      else if not has_client
      then ret (returned n2 entry (some (message "append client is nil")))
      else (do
        (n3, err) ← replicate_once entry.index a.round n2
        let n4 = a.before_recheck n3
        let later = propose_loop has_client entry rest n4
        elim err [
          | some e ↦ ret (returned n3 entry (some e))
          | none ↦
              if is_committed n4 entry.index
              then ret (returned n4 entry none)
              else elim a.wait [ some e ↦ ret (returned n4 entry (some e)) | none ↦ later ]
        ])

  -- ProposeWithRetryInterval; `context` is `ctx.Err()` at its start.
  unfoldable pub propose :
      ⦃stable : StableStore D⦄ ⦃json : MembershipJson⦄
      → Option Error
      → Bool
      → Effect D
      → Bytes
      → List (Attempt D)
      → RaftNode D
      → Run (Proposal D)
  unfolding propose_loop
  propose ⦃stable⦄ ⦃json⦄ context has_client before_append command attempts n = elim context [
    | some err ↦ ret (returned n empty_entry (some err))
    | none ↦
        if not (is_leader n.state)
        then ret (returned n empty_entry (some (not_leader n.state)))
        else (do
          (n1, entry, err) ← append_local command (before_append n)
          elim err [
            | some e ↦ ret (returned n1 empty_entry (some e))
            | none ↦ propose_loop has_client entry attempts n1
          ])
  ]
