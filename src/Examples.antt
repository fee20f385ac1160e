-- ===== src/Examples.antt =====
-- Runs of the model at concrete nodes, and the theorems at them.
mod Elections
mod Logs
mod Histories
mod Operations
mod Stores
mod Starts
mod Calls
mod Loops
mod Requests
mod Files
mod Binary
use rv_key_value.Base.{ℕ, String, Bool, true, none, some, List, [], ◌∷◌, str_eq, if◌then◌else◌}
use rv_key_value.Raft.Types.{
  LogEntry, PersistentState, StableStore, StateMachine, AppendEntriesRequest, RequestVoteRequest,
}
use rv_key_value.Raft.Membership.{MembershipJson}
use rv_key_value.Raft.Node.{RaftNode, fresh_node}

-- A store that keeps the last state, and never fails.
instance abbrev pub disk_store : StableStore PersistentState
disk_store = record { save = λ s d. (s, none); load = λ d. (d, none) }

-- No command is a membership change.
instance abbrev pub no_membership : MembershipJson
no_membership = record { marshal = λ c. []; unmarshal = λ b. none }

abbrev voters : List String
voters = "a" ∷ "b" ∷ "c" ∷ []

abbrev peers_of : String → List String
peers_of v =
    if str_eq v "a" then "b" ∷ "c" ∷ [] else if str_eq v "b" then "a" ∷ "c" ∷ [] else "a" ∷ "b" ∷ []

abbrev new_node : String → RaftNode PersistentState
new_node v = fresh_node v (peers_of v) none

abbrev entry : ℕ → ℕ → LogEntry
entry term index = record { term = term; index = index; command = index ∷ [] }
