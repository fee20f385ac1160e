-- ===== src/Store/Command.antt =====
-- store/kv_command.go: the commands of the key-value store, and their encoding.
use rv_key_value.Base.{String, Option, none, some, [], ◌⊎◌, inl, inr, str_eq, if◌then◌else◌}
use rv_key_value.Base.Map.{Map}
use rv_key_value.Raft.Types.{Bytes, Error, message, unsupported}

-- The source's type is a string; `other` is any that is none of the constants.
pub data KvOperation : Type 0 where
  put delete noop : KvOperation
  other : String → KvOperation

pub record KvCommand : Type 0 where
  pub operation : KvOperation
  pub key : String
  pub value : Bytes

-- `json.Marshal` and `json.Unmarshal` at `Command` and at `map[string][]byte`.
pub record KvJson : Type 0 where
  pub marshal : KvCommand → Bytes × Option Error
  pub unmarshal : Bytes → KvCommand ⊎ Error
  pub marshal_map : Map Bytes → Bytes × Option Error
  pub unmarshal_map : Bytes → Map Bytes ⊎ Error

-- (Command).Validate
unfoldable pub validate_command : KvCommand → Option Error
validate_command c = elim c.operation [
  | noop ↦ none
  | put ↦ if str_eq c.key "" then some (message "kv command key is required") else none
  | delete ↦ if str_eq c.key "" then some (message "kv command key is required") else none
  | other t ↦
      if str_eq c.key "" then some (message "kv command key is required") else some (unsupported t)
]

-- EncodeCommand
unfoldable pub encode_command : ⦃json : KvJson⦄ → KvCommand → Bytes × Option Error
encode_command ⦃json⦄ c = elim (validate_command c) [
  | some err ↦ ([], some err)
  | none ↦ json.marshal c
]

abbrev check : KvCommand ⊎ Error → KvCommand ⊎ Error
check (inr err) = inr err
check (inl c) = elim (validate_command c) [ some err ↦ inr err | none ↦ inl c ]

-- DecodeCommand
unfoldable pub decode_command : ⦃json : KvJson⦄ → Bytes → KvCommand ⊎ Error
decode_command ⦃json⦄ bytes = check (json.unmarshal bytes)
