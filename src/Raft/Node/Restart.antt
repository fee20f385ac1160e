-- ===== src/Raft/Node/Restart.antt =====
-- A node that restarts from its store.
use rv_key_value.Base.{
  String, Bool, true, false, Option, none, some, List, [], ◌∷◌, ◌≡◌, refl, ap, ◌∙◌, if◌then◌else◌,
  ◌||◌, ltb, length,
}
use rv_key_value.Raft.Types.{PersistentState, StableStore, Error, follower}
use rv_key_value.Raft.Node.{
  RaftNode, clone_peers, elements, is_set, restore, restore_or_fail, fresh_node, new_raft_node,
  persistent_state, persist,
}
use rv_key_value.Raft.Node.Persist.{persist_with}

kept_peers :
    (ps peers : List String)
    → (if is_set (clone_peers ps) then elements (clone_peers ps) else peers)
      ≡ (if is_set (clone_peers ps) then ps else peers)
unfolding clone_peers
kept_peers [] peers = refl
kept_peers (p ∷ ps) peers = refl

configured : (b c : Bool) → (if b || true then true else c) ≡ true
configured true c = refl
configured false c = refl

module _ {D : Type 0} where
  -- What a node keeps over a restart: all that is persistent. An empty list of peers is not kept: the
  -- peers that the constructor was given take its place.
  abbrev pub restarted : List String → RaftNode D → RaftNode D
  restarted peers n = record n {
    peers = if is_set (clone_peers n.peers) then n.peers else peers;
    membership_configured = true;
    state = follower;
    leader_id = "";
    commit_index = n.last_included_index;
    last_applied = n.last_included_index;
    next_index = none;
    match_index = none;
    commit_ready = false;
  }

  restore_lem :
      (n : RaftNode D) (peers : List String) (d : Option D)
      → restore (persistent_state n) (fresh_node n.id peers d)
        ≡ restarted peers (record n { store = d })
  unfolding persistent_state
  restore_lem n peers d =
      rw
        (kept_peers n.peers peers, configured (is_set (clone_peers n.peers)) (ltb 0 (length peers)))
        refl

module _ {D : Type 0} ⦃stable : StableStore D⦄ where
  loaded :
      (id : String) (peers : List String) (d : D) (s : PersistentState)
      → stable.load d ≡ (s, none)
      → new_raft_node id peers (some d) ≡ (some (restore s (fresh_node id peers (some d))), none)
  unfolding new_raft_node
  loaded id peers d s e =
      ap
        (λ (r : PersistentState × Option Error).
          restore_or_fail r.0 r.1 (fresh_node id peers (some d)))
        e

  -- A node that persisted its state and restarts from its store is what it was, as a follower that has
  -- applied no more than its snapshot: its term, its vote, its log, its snapshot and its membership
  -- are those that it persisted, but if it had no peers left, it takes those of the constructor. The
  -- store loads what it saved last.
  pub new_raft_node-persist :
      (n : RaftNode D) (peers : List String) (d : D)
      → n.store ≡ some d
      → stable.load (stable.save (persistent_state n) d).0 ≡ (persistent_state n, none)
      → new_raft_node n.id peers (persist n).0.store ≡ (some (restarted peers (persist n).0), none)
  new_raft_node-persist n peers d has law =
      let e = persist_with n d has in
      rw (e) (
        loaded n.id peers (stable.save (persistent_state n) d).0 (persistent_state n) law
        ∙ ap (λ m. (some m, none))
            (restore_lem n peers (some (stable.save (persistent_state n) d).0)))
