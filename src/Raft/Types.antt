-- ===== src/Raft/Types.antt =====
-- raft/types.go: the data that nodes keep and exchange, and the comparison of logs.
use rv_key_value.Base.{ℕ, String, Bool, Option, List, leb, ltb, not, ◌==◌, if◌then◌else◌}

-- A `[]byte`.
abbrev pub Bytes : Type 0
Bytes = List ℕ

-- The role a node is playing.
pub data State : Type 0 where
  follower candidate leader : State

pub record LogEntry : Type 0 where
  pub term : ℕ
  pub index : ℕ
  pub command : Bytes

-- `peers` and `self_member` are `none` where Go has nil.
pub record PersistentState : Type 0 where
  pub current_term : ℕ
  pub voted_for : String
  pub peers : Option (List String)
  pub self_member : Option Bool
  pub last_included_index : ℕ
  pub last_included_term : ℕ
  pub snapshot : Bytes
  pub log : List LogEntry

pub record RequestVoteRequest : Type 0 where
  pub term : ℕ
  pub candidate_id : String
  pub last_log_index : ℕ
  pub last_log_term : ℕ

pub record RequestVoteResponse : Type 0 where
  pub term : ℕ
  pub vote_granted : Bool

pub record PreVoteRequest : Type 0 where
  pub term : ℕ
  pub candidate_id : String
  pub last_log_index : ℕ
  pub last_log_term : ℕ

pub record PreVoteResponse : Type 0 where
  pub term : ℕ
  pub vote_granted : Bool

pub record AppendEntriesRequest : Type 0 where
  pub term : ℕ
  pub leader_id : String
  pub prev_log_index : ℕ
  pub prev_log_term : ℕ
  pub entries : List LogEntry
  pub leader_commit : ℕ

pub record AppendEntriesResponse : Type 0 where
  pub term : ℕ
  pub success : Bool

-- Go's `error`: the error types of the package, those that `errors.New` and `fmt.Errorf` make,
-- and those of a context that is done.
pub data Error : Type 0 where
  log_inconsistent : ℕ → ℕ → Error
  unknown_peer : String → Error
  membership_change_pending : Error
  not_leader : State → Error
  message : String → Error
  unsupported : String → Error
  deadline_exceeded : Error
  canceled : Error

-- What a node asks of its store. `save` returns the store after the call, whether it failed or not.
pub record StableStore (D : Type 0) : Type 0 where
  pub save : PersistentState → D → D × Option Error
  pub load : D → PersistentState × Option Error

-- What a node asks of the state machine that it feeds.
pub record StateMachine (M : Type 0) : Type 0 where
  pub apply : LogEntry → M → M × Option Error

-- IsLogAtLeastUpToDate
unfoldable pub is_log_at_least_up_to_date : ℕ → ℕ → ℕ → ℕ → Bool
is_log_at_least_up_to_date candidate_index candidate_term local_index local_term =
    if not (candidate_term == local_term)
    then ltb local_term candidate_term
    else leb local_index candidate_index
