-- ===== src/Raft/Membership/RoundTrip.antt =====
-- A membership change that is encoded is decoded again, and no other is encoded.
use rv_key_value.Base.{[], none, some, ◌≡◌, inl, inr, refl, Option-cases}
use rv_key_value.Raft.Types.{Bytes, Error}
use rv_key_value.Raft.Membership.{
  MembershipChange, MembershipCommand, MembershipJson, membership_command_operation, validate,
  encode_membership_change, decode_membership_change, decoded,
}

-- The command that stands for a change.
abbrev pub command_of : MembershipChange → MembershipCommand
command_of change = record {
  operation = membership_command_operation;
  change_type = change.change_type;
  peer_id = change.peer_id;
}

module _ ⦃json : MembershipJson⦄ (change : MembershipChange) where
  encode_valid :
      validate change ≡ none
      → encode_membership_change change ≡ (json.marshal (command_of change), none)
  unfolding encode_membership_change
  encode_valid ok = rw (ok, encode_membership_change) refl

  encode_invalid :
      (e : Error) → validate change ≡ some e → encode_membership_change change ≡ ([], some e)
  unfolding encode_membership_change
  encode_invalid e bad = rw (bad, encode_membership_change) refl

  decode_command :
      (bytes : Bytes)
      → json.unmarshal bytes ≡ some (command_of change)
      → validate change ≡ none
      → decode_membership_change bytes ≡ decoded change
  unfolding decode_membership_change
  decode_command bytes read ok = rw (read, decode_membership_change, ok) refl

  -- EncodeMembershipChange fails exactly where Validate does, with the same error; and what it returns
  -- for any other change is decoded to that change. The JSON codec reads back what it wrote for it.
  pub decode-encode :
      json.unmarshal (json.marshal (command_of change)) ≡ some (command_of change)
      → let (bytes, err) = encode_membership_change change in
        (err ≡ validate change)
        × (decode_membership_change bytes ≡ elim (validate change) [
          | none ↦ decoded change
          | some e ↦ decode_membership_change []
        ])
  decode-encode law = elim (Option-cases (validate change)) [
    | inl ok ↦ rw (encode_valid ok, ok) (refl, decode_command _ law ok)
    | inr (e, bad) ↦ rw (encode_invalid e bad, bad) (refl, refl)
  ]
