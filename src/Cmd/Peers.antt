-- ===== src/Cmd/Peers.antt =====
-- cmd/node/main.go: the list of peers of the command line.
pub mod Parsed
use rv_key_value.Base.{
  String, Bool, true, false, Option, none, some, List, [], ◌∷◌, ◌++◌, ◌||◌, str_eq, if◌then◌else◌,
  ◌⊎◌, inl, inr,
}
use rv_key_value.Base.Map.{Map, lookup, insert}
use rv_key_value.Base.Texts.{split, split_two}
use rv_key_value.Raft.Types.{Error, message}
use rv_key_value.Raft.Membership.{trim_space}

-- The results of parsePeers without the error.
abbrev pub PeerList : Type 0
PeerList = List String × Map String

-- The id and the address of a peer, if there are both.
abbrev pub both_given : Option (String × String) → Option (String × String)
both_given none = none
both_given (some (a, b)) =
    if str_eq (trim_space a) "" || str_eq (trim_space b) ""
    then none
    else some (trim_space a, trim_space b)

-- What an iteration of parsePeers reads: the id and the address.
unfoldable pub parse_peer : String → Option (String × String)
parse_peer raw_peer = both_given (split_two (trim_space raw_peer) b'=')

-- What an iteration of parsePeers adds.
unfoldable pub add_parsed : Option (String × String) → List String → Map String → PeerList ⊎ Error
add_parsed none ids addrs = inr (message "invalid peer, want id=address")
add_parsed (some (id, addr)) ids addrs = elim (lookup id addrs) [
  | some old ↦ inr (message "duplicate peer id")
  | none ↦ inl (ids ++ id ∷ [], insert id addr addrs)
]

abbrev pub or_stop :
    PeerList ⊎ Error → (List String → Map String → PeerList ⊎ Error) → PeerList ⊎ Error
or_stop (inr err) rest = inr err
or_stop (inl (ids, addrs)) rest = rest ids addrs

-- The loop of parsePeers.
unfoldable pub parse_loop : List String → List String → Map String → PeerList ⊎ Error
unfolding add_parsed parse_peer
parse_loop [] ids addrs = inl (ids, addrs)
parse_loop (raw_peer ∷ rest) ids addrs =
    or_stop (add_parsed (parse_peer raw_peer) ids addrs) (parse_loop rest)

-- parsePeers
unfoldable pub parse_peers : String → PeerList ⊎ Error
unfolding parse_loop
parse_peers value =
    if str_eq (trim_space value) "" then inl ([], []) else parse_loop (split value b',') [] []
