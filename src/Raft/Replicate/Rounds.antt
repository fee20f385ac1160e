-- ===== src/Raft/Replicate/Rounds.antt =====
-- A round of replication does not panic, and leaves a well-formed node.
use rv_key_value.Base.{
  Returns-option, ℕ, suc, String, Option, none, some, List, [], ◌∷◌, inl, inr, refl, ltb, ◌&&◌,
  length, get_elem?, take, All, All-take, ret, Returns, Returns-map, Returns-bind, Returns-if,
  Option-cases,
}
use rv_key_value.Raft.Types.{StableStore, Error, AppendEntriesResponse}
use rv_key_value.Raft.Node.{RaftNode}
use rv_key_value.Raft.Log.WellFormed.{IsWellFormed}
use rv_key_value.Raft.Keeps.{Stays}
use rv_key_value.Raft.Vote.{step_down_for_higher_term}
use rv_key_value.Raft.Commit.{is_committed}
use rv_key_value.Raft.Commit.Leader.{
  ensure_leader_progress-Stays, record_replication_success-Stays, record_replication_failure-Stays,
}
use rv_key_value.Raft.Append.{build_append_entries}
use rv_key_value.Raft.Append.Leader.{build_append_entries-Returns}
use rv_key_value.Raft.Steps.Keep.{step_down-Follows}
use rv_key_value.Raft.Election.Winning.{IsSound}
use rv_key_value.Raft.Replicate.{
  AppendRequest, Reply, context_done, failed, answered, Round, build_requests, record_reply,
  take_replies, receive, replicate_once,
}

module _ {D : Type 0} where
  abbrev IsSoundReply : Reply D → Type 0
  IsSoundReply (answered _ _ e1 e2 e3) = IsSound e1 × IsSound e2 × IsSound e3
  IsSoundReply _ = Unit

  -- What other goroutines do during a round keeps a node well-formed.
  pub record IsSoundRound (round : Round D) : Type 0 where
    pub before_peers : IsSound round.before_peers
    pub before_request : (i : ℕ) → IsSound (round.before_request i)
    pub replies : All IsSoundReply round.replies

  unmoved : (n : RaftNode D) → IsWellFormed n → Stays n n
  unmoved n w = (w, record { term = refl; vote = refl; id = refl; role = refl })

  build_requests-Returns :
      (round : Round D)
      → IsSoundRound round
      → (i : ℕ) (ps : List String) (n : RaftNode D) → IsWellFormed n
      → Returns (build_requests round i ps n) (λ r. IsWellFormed r.0)
  unfolding build_requests
  build_requests-Returns round s i [] n w = w
  build_requests-Returns round s i (p ∷ ps) n w =
      let w1 = s.before_request i n w in
      let n1 = round.before_request i n in
      let later = build_requests-Returns round s (suc i) ps n1 w1 in
      elim (Option-cases (round.context_at i)) [
        | inr (err, e) ↦ rw (e, build_requests) w
        | inl e ↦
            rw (e, build_requests)
              (Returns-bind (λ r. Unit) (λ r. IsWellFormed r.0) (build_append_entries p n1) _
                (build_append_entries-Returns n1 w1 p)
                (λ r h.
                  Returns-option (λ r. IsWellFormed r.0) r.1 _ (λ e. ret (n1, [], some e))
                    (Returns-bind (λ r. IsWellFormed r.0) (λ r. IsWellFormed r.0) _ _ later
                      (λ b wb. wb))
                    (λ e. w1)))
      ]

  record_reply-Returns :
      (request : AppendRequest) (resp : AppendEntriesResponse) (n : RaftNode D)
      → IsWellFormed n
      → Returns (record_reply request resp n) (λ r. IsWellFormed r.0)
  unfolding record_reply
  record_reply-Returns request resp n w =
      Returns-if (λ r. IsWellFormed r.0) resp.success _ _
        (Returns-map {P = λ r. Stays n r.0} _
          (record_replication_success-Stays request.peer_id _ n n (unmoved n w)) (λ r s. s.0))
        (Returns-map {P = λ r. Stays n r.0} _
          (record_replication_failure-Stays request.peer_id n n (unmoved n w)) (λ r s. s.0))

module _ {D : Type 0} ⦃stable : StableStore D⦄ where
  take_replies-Returns :
      (stop_at : ℕ) (requests : List AppendRequest) (replies : List (Reply D)) (n : RaftNode D)
      → IsWellFormed n
      → All IsSoundReply replies
      → Returns (take_replies stop_at requests replies n) (λ r. IsWellFormed r.0)
  unfolding take_replies
  take_replies-Returns stop_at requests [] n w s = w
  take_replies-Returns stop_at requests (context_done err ∷ rest) n w s = w
  take_replies-Returns stop_at requests (failed ∷ rest) n w s =
      take_replies-Returns stop_at requests rest n w s.1
  take_replies-Returns stop_at requests (answered i resp e1 e2 e3 ∷ rest) n w ((s1, s2, s3), s) =
      let P = λ (r : RaftNode D × Option Error). IsWellFormed r.0 in
      let w1 = (step_down-Follows (e1 n) (s1 n w) resp.term).shape in
      let n1 = (step_down_for_higher_term resp.term (e1 n)).0 in
      Returns-option P (get_elem? requests i) _ _ (take_replies-Returns stop_at requests rest n w s)
        (λ request.
          Returns-option P (step_down_for_higher_term resp.term (e1 n)).2 _ (λ e. ret (n1, some e))
            (Returns-if P (step_down_for_higher_term resp.term (e1 n)).1 _ _ w1 (
              Returns-bind P P _ _ (record_reply-Returns request resp (e2 n1) (s2 n1 w1)) (λ r wr.
                Returns-option P r.1 _ (λ e. ret (r.0, some e))
                  (Returns-if P (resp.success && ltb 0 stop_at && is_committed (e3 r.0) stop_at) _ _
                    (s3 r.0 wr) (take_replies-Returns stop_at requests rest (e3 r.0) (s3 r.0 wr) s))
                  (λ e. wr))))
            (λ e. w1))

  receive-Returns :
      (stop_at : ℕ) (round : Round D) (r : RaftNode D × List AppendRequest × Option Error)
      → IsSoundRound round
      → IsWellFormed r.0
      → Returns (receive stop_at round r) (λ r. IsWellFormed r.0)
  unfolding receive
  receive-Returns stop_at round (n, requests, some err) s w = w
  receive-Returns stop_at round (n, requests, none) s w =
      take_replies-Returns stop_at requests (take (length requests) round.replies) n w
        (All-take IsSoundReply (length requests) round.replies s.replies)

  -- replicateOnce does not panic on a well-formed node, and leaves one, if what other goroutines do
  -- keeps it so.
  pub replicate_once-Returns :
      (stop_at : ℕ) (round : Round D) (n : RaftNode D)
      → IsWellFormed n
      → IsSoundRound round
      → Returns (replicate_once stop_at round n) (λ r. IsWellFormed r.0)
  unfolding replicate_once
  replicate_once-Returns stop_at round n w s =
      Returns-bind (Stays n) (λ r. IsWellFormed r.0) _ _
        (ensure_leader_progress-Stays n n (unmoved n w))
        (λ n1 (w1, same).
          Returns-bind (λ r. IsWellFormed r.0) (λ r. IsWellFormed r.0) _ _
            (build_requests-Returns round s 0 (round.before_peers n1).peers (round.before_peers n1)
              (s.before_peers n1 w1))
            (λ r wr. receive-Returns stop_at round r s wr))
