-- ===== src/Raft/Membership.antt =====
-- raft/membership.go: changes of the voting members, as commands of the log.
pub mod RoundTrip
use Prim.Native.Char.{code}
use Prim.Native.String as Text
use rv_key_value.Base.{
  ℕ, String, Bool, true, Option, none, some, List, leb, not, ◌==◌, ◌||◌, ◌&&◌, str_eq,
  if◌then◌else◌,
}
use rv_key_value.Raft.Types.{Bytes, Error, message, unsupported}

-- The source's type is a string; `other` is any that is neither constant.
pub data MembershipChangeType : Type 0 where
  add_peer remove_peer : MembershipChangeType
  other : String → MembershipChangeType

pub record MembershipChange : Type 0 where
  pub change_type : MembershipChangeType
  pub peer_id : String

-- membershipCommand, as the JSON document holds it.
pub record MembershipCommand : Type 0 where
  pub operation : String
  pub change_type : MembershipChangeType
  pub peer_id : String

-- `json.Marshal` and `json.Unmarshal` at `membershipCommand`; `none` is an error.
pub record MembershipJson : Type 0 where
  pub marshal : MembershipCommand → Bytes
  pub unmarshal : Bytes → Option MembershipCommand

abbrev pub membership_command_operation : String
membership_command_operation = "raft_membership"

-- unicode.IsSpace
is_space : ℕ → Bool
is_space c =
    leb 9 c && leb c 13
    || c == 32
    || c == 0x85
    || c == 0xa0
    || c == 0x1680
    || leb 0x2000 c && leb c 0x200a
    || c == 0x2028
    || c == 0x2029
    || c == 0x202f
    || c == 0x205f
    || c == 0x3000

trim_left : String → String
unfolding is_space
trim_left Text.[] = Text.[]
trim_left (Text.◌∷◌ c s) =
    let rest = trim_left s in if is_space (code c) then rest else Text.◌∷◌ c s

is_blank : String → Bool
unfolding is_space
is_blank Text.[] = true
is_blank (Text.◌∷◌ c s) = is_space (code c) && is_blank s

-- White space at the end goes: a character stays if something behind it does, or it is no space.
trim_right : String → String
unfolding is_blank
trim_right Text.[] = Text.[]
trim_right (Text.◌∷◌ c s) = if is_blank (Text.◌∷◌ c s) then Text.[] else Text.◌∷◌ c (trim_right s)

-- strings.TrimSpace
unfoldable pub trim_space : String → String
unfolding trim_left trim_right
trim_space s = trim_right (trim_left s)

-- (MembershipChange).Validate
unfoldable pub validate : MembershipChange → Option Error
validate c =
    if str_eq (trim_space c.peer_id) ""
    then some (message "membership peer id is required")
    else if not (str_eq (trim_space c.peer_id) c.peer_id)
    then some (message "membership peer id must not contain surrounding whitespace")
    else elim c.change_type [
      | add_peer ↦ none
      | remove_peer ↦ none
      | other t ↦ some (unsupported t)
    ]

-- EncodeMembershipChange
unfoldable pub encode_membership_change :
    ⦃json : MembershipJson⦄ → MembershipChange → Bytes × Option Error
encode_membership_change ⦃json⦄ change = elim (validate change) [
  | some err ↦ (List.[], some err)
  | none ↦ (
    json.marshal (record {
      operation = membership_command_operation;
      change_type = change.change_type;
      peer_id = change.peer_id;
    }),
    none,
  )
]

-- The three results of DecodeMembershipChange: no membership command (`false, nil`), one that is
-- refused (`true, err`), and a change (`true, nil`).
pub data Decoded : Type 0 where
  not_membership : Decoded
  invalid : Error → Decoded
  decoded : MembershipChange → Decoded

-- DecodeMembershipChange
unfoldable pub decode_membership_change : ⦃json : MembershipJson⦄ → Bytes → Decoded
decode_membership_change ⦃json⦄ bytes = elim (json.unmarshal bytes) [
  | none ↦ not_membership
  | some command ↦
      if not (str_eq command.operation membership_command_operation)
      then not_membership
      else let change : MembershipChange = record {
        change_type = command.change_type;
        peer_id = command.peer_id;
      } in
        elim (validate change) [ some err ↦ invalid err | none ↦ decoded change ]
]
