-- ===== src/Transport/Messages.antt =====
-- The messages of proto/raft.pb.go, as far as raftgrpc reads and writes them. A pointer to a message is
-- `none` where it is nil, and a getter of a nil message returns the zero value.
use rv_key_value.Base.{ℕ, String, Bool, Option, none, some, List}
use rv_key_value.Raft.Types.{Bytes}

pub record PbLogEntry : Type 0 where
  pub term : ℕ
  pub index : ℕ
  pub command : Bytes

pub record PbRequestVoteRequest : Type 0 where
  pub term : ℕ
  pub candidate_id : String
  pub last_log_index : ℕ
  pub last_log_term : ℕ

pub record PbRequestVoteResponse : Type 0 where
  pub term : ℕ
  pub vote_granted : Bool

pub record PbPreVoteRequest : Type 0 where
  pub term : ℕ
  pub candidate_id : String
  pub last_log_index : ℕ
  pub last_log_term : ℕ

pub record PbPreVoteResponse : Type 0 where
  pub term : ℕ
  pub vote_granted : Bool

pub record PbAppendEntriesRequest : Type 0 where
  pub term : ℕ
  pub leader_id : String
  pub prev_log_index : ℕ
  pub prev_log_term : ℕ
  pub entries : List (Option PbLogEntry)
  pub leader_commit : ℕ

pub record PbAppendEntriesResponse : Type 0 where
  pub term : ℕ
  pub success : Bool

-- A getter: the field of a message, or the zero value.
abbrev pub getter {ℓ κ} : {A : Type ℓ} {B : Type κ} → B → (A → B) → Option A → B
getter zero_value field none = zero_value
getter zero_value field (some message) = field message
