-- ===== src/Raft/Node.antt =====
-- raft/node.go: the state of a node, how it is built, its persistence, and its membership tests.
-- A method that locks the node is one step on the record; `store` is `none` where Go has nil.
pub mod Persist
pub mod Restart
pub mod Getters
use rv_key_value.Base.{
  ℕ, suc, ◌+◌, ◌/◌, String, Bool, true, false, Option, none, some, List, [], ◌∷◌, ◌++◌, ◌||◌, ◌&&◌,
  not, ltb, leb, ◌==◌, str_eq, if◌then◌else◌, length, u64,
}
use rv_key_value.Base.Map.{Map}
use rv_key_value.Raft.Types.{
  Bytes, State, follower, candidate, LogEntry, PersistentState, StableStore, Error,
}

-- RaftNode. `commit_ready` tells whether the channel's one slot is taken.
pub record RaftNode (D : Type 0) : Type 0 where
  pub id : String
  pub peers : List String
  pub self_member : Bool
  pub membership_configured : Bool
  pub state : State
  pub leader_id : String
  pub current_term : ℕ
  pub voted_for : String
  pub log : List LogEntry
  pub commit_index : ℕ
  pub last_applied : ℕ
  pub last_included_index : ℕ
  pub last_included_term : ℕ
  pub snapshot : Bytes
  pub next_index : Option (Map ℕ)
  pub match_index : Option (Map ℕ)
  pub store : Option D
  pub commit_ready : Bool

-- clonePeers: `append([]string(nil), peers...)` is nil for an empty slice.
unfoldable pub clone_peers : List String → Option (List String)
clone_peers [] = none
clone_peers (p ∷ ps) = some (p ∷ ps)

-- The elements of a slice that may be nil.
abbrev pub elements : Option (List String) → List String
elements none = []
elements (some ps) = ps

-- containsPeer
unfoldable pub contains_peer : List String → String → Bool
contains_peer [] id = false
contains_peer (p ∷ ps) id = str_eq p id || contains_peer ps id

-- removePeer
unfoldable pub remove_peer : List String → String → List String
remove_peer [] id = []
remove_peer (p ∷ ps) id = let rest = remove_peer ps id in if str_eq p id then rest else p ∷ rest

-- majority
unfoldable pub majority : ℕ → ℕ
majority cluster_size = cluster_size / 2 + 1

abbrev pub is_leader : State → Bool
is_leader State.leader = true
is_leader _ = false

abbrev pub is_follower : State → Bool
is_follower follower = true
is_follower _ = false

abbrev pub is_candidate : State → Bool
is_candidate candidate = true
is_candidate _ = false

abbrev pub is_set : {A : Type 0} → Option A → Bool
is_set none = false
is_set (some _) = true

module _ {D : Type 0} where
  -- What `NewRaftNode` takes over from a state that the store returned.
  abbrev pub restore : PersistentState → RaftNode D → RaftNode D
  restore s n = record n {
    current_term = s.current_term;
    voted_for = s.voted_for;
    peers = if is_set s.peers then elements s.peers else n.peers;
    self_member = elim s.self_member [ none ↦ n.self_member | some b ↦ b ];
    membership_configured =
        if is_set s.peers || is_set s.self_member then true else n.membership_configured;
    last_included_index = s.last_included_index;
    last_included_term = s.last_included_term;
    snapshot = s.snapshot;
    commit_index = s.last_included_index;
    last_applied = s.last_included_index;
    log = s.log;
  }

  abbrev pub fresh_node : String → List String → Option D → RaftNode D
  fresh_node id peers store = record {
    id = id;
    peers = peers;
    self_member = true;
    membership_configured = ltb 0 (length peers);
    state = follower;
    leader_id = "";
    current_term = 0;
    voted_for = "";
    log = [];
    commit_index = 0;
    last_applied = 0;
    last_included_index = 0;
    last_included_term = 0;
    snapshot = [];
    next_index = none;
    match_index = none;
    store = store;
    commit_ready = false;
  }

  abbrev restore_or_fail :
      PersistentState → Option Error → RaftNode D → Option (RaftNode D) × Option Error
  restore_or_fail s (some err) n = (none, some err)
  restore_or_fail s none n = (some (restore s n), none)

  -- NewRaftNode; the node is `none` where Go returns nil.
  unfoldable pub new_raft_node :
      ⦃stable : StableStore D⦄
      → String
      → List String
      → Option D
      → Option (RaftNode D) × Option Error
  new_raft_node ⦃stable⦄ id peers none = (some (fresh_node id peers none), none)
  new_raft_node ⦃stable⦄ id peers (some d) =
      let (s, err) = stable.load d in restore_or_fail s err (fresh_node id peers (some d))

  -- The state that a node hands to its store.
  unfoldable pub persistent_state : RaftNode D → PersistentState
  persistent_state n = record {
    current_term = n.current_term;
    voted_for = n.voted_for;
    peers = clone_peers n.peers;
    self_member = some n.self_member;
    last_included_index = n.last_included_index;
    last_included_term = n.last_included_term;
    snapshot = n.snapshot;
    log = n.log;
  }

  persist_to : ⦃stable : StableStore D⦄ → Option D → RaftNode D → RaftNode D × Option Error
  persist_to ⦃stable⦄ none n = (n, none)
  persist_to ⦃stable⦄ (some d) n =
      let (d', err) = stable.save (persistent_state n) d in (record n { store = some d' }, err)

  -- persistLocked
  unfoldable pub persist : ⦃stable : StableStore D⦄ → RaftNode D → RaftNode D × Option Error
  unfolding persist_to
  persist ⦃stable⦄ n = persist_to n.store n

  -- Members
  unfoldable pub members : RaftNode D → List String
  members n = (if n.self_member then n.id ∷ [] else []) ++ n.peers

  -- isMemberLocked
  unfoldable pub is_member : RaftNode D → String → Bool
  unfolding contains_peer
  is_member n id =
      if str_eq id n.id
      then n.self_member
      else if contains_peer n.peers id
      then true
      else n.self_member && not n.membership_configured

  -- clusterSizeLocked
  unfoldable pub cluster_size : RaftNode D → ℕ
  cluster_size n = length n.peers + (if n.self_member then 1 else 0)

  -- signalCommitReadyLocked: a send that finds the slot taken is dropped.
  abbrev pub signal_commit_ready : RaftNode D → RaftNode D
  signal_commit_ready n = record n { commit_ready = true }

  -- BecomeFollower
  unfoldable pub become_follower :
      ⦃stable : StableStore D⦄ → ℕ → RaftNode D → RaftNode D × Option Error
  become_follower ⦃stable⦄ term n =
      let n1 = record n {
        state = follower;
        leader_id = "";
        next_index = none;
        match_index = none;
      } in
      persist
        (if ltb n1.current_term term then record n1 { current_term = term; voted_for = "" } else n1)

  -- BecomeCandidate
  unfoldable pub become_candidate :
      ⦃stable : StableStore D⦄ → RaftNode D → RaftNode D × Option Error
  become_candidate ⦃stable⦄ n = persist (record n {
    state = candidate;
    leader_id = "";
    next_index = none;
    match_index = none;
    current_term = u64 (n.current_term + 1);
    voted_for = n.id;
  })

  -- SetVotedFor
  unfoldable pub set_voted_for :
      ⦃stable : StableStore D⦄ → String → RaftNode D → RaftNode D × Option Error
  set_voted_for ⦃stable⦄ candidate_id n = persist (record n { voted_for = candidate_id })
