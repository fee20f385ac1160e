-- ===== src/Cmd/Startup/Recovery.antt =====
-- A node that starts again with the database of its state machine, which is ahead of the node.
use rv_key_value.Base.{
  Option, none, some, List, [], ◌∷◌, ◌≡◌, ◌≢◌, ◌⊎◌, inl, inr, refl, sym, ap, ◌∙◌, String, ℕ,
  Returns,
}
use rv_key_value.Base.Map.{Map, lookup}
use rv_key_value.Raft.Types.{Bytes, Error, StableStore}
use rv_key_value.Raft.Membership.{MembershipJson}
use rv_key_value.Raft.Node.{RaftNode}
use rv_key_value.Raft.Log.WellFormed.{IsWellFormed}
use rv_key_value.Raft.Apply.{apply_committed}
use rv_key_value.Store.Command.{KvJson}
use rv_key_value.Store.Database.{Database}
use rv_key_value.Store.Machine.{
  KvStateMachine, kv_state_machine, get, load_entries, loaded, opened, new_bolt_kv_state_machine,
  restore_snapshot,
}
use rv_key_value.Store.Behaviour.{IsBolt, IsMirrored, stored}
use rv_key_value.Store.Snapshots.{get-restore_bytes}
use rv_key_value.Store.Refinement.{Contents, Holds, Implements, apply_committed-Implements}
use rv_key_value.Store.Replay.{IsAhead, replays}
use rv_key_value.Cmd.Startup.{restore_if_any, restored_or_fail, opened_or_fail, start_machine}

read_if :
    (err : Option Error) (old new : Option Bytes) {v : Option Bytes}
    → err ≡ none
    → v ≡ elim err [ some e ↦ old | none ↦ new ]
    → v ≡ new
read_if none old new ok e = e
read_if (some e') old new ok e = cc

-- The bytes are a snapshot of `f`.
abbrev pub IsSnapshotOf : ⦃json : KvJson⦄ → Bytes → Contents → Type 0
IsSnapshotOf ⦃json⦄ bytes f =
    (m : Map Bytes) × (json.unmarshal_map bytes ≡ inl m) × ((k : String) → lookup k m ≡ f k)

-- RestoreSnapshot returns the error for a state machine.
abbrev pub FailsToRestore :
    (B : Type 0) ⦃database : Database B⦄ ⦃json : KvJson⦄ → Bytes → Error → Type 0
FailsToRestore B ⦃database⦄ ⦃json⦄ bytes err =
    (m : KvStateMachine B) × ((restore_snapshot bytes m).1 ≡ some err)

module _ {B : Type 0} ⦃database : Database B⦄ where
  -- An error that has a reason, or a state machine that reads what `f` holds.
  abbrev pub Reads : (Error → Type 0) → Contents → Option (KvStateMachine B) × Option Error → Type 0
  Reads Reason f (some m, none) = Holds m f
  Reads Reason f (none, some err) = Reason err
  Reads Reason f (none, none) = ⊥
  Reads Reason f (some m, some err) = ⊥

  -- The database returns the error when its bucket is created or visited.
  abbrev pub FailsToOpen : B → Error → Type 0
  FailsToOpen b err =
      let (b', first) = database.update database.create_bucket b in
      (first ≡ some err) ⊎ ((database.entries b').1 ≡ some err)

  loaded-Reads :
      (Reason : Error → Type 0) (b : B) (f : Contents) (r : List (String × Bytes) × Option Error)
      → ((err : Error) → r.1 ≡ some err → Reason err)
      → ((k : String) → lookup k (load_entries r.0 []) ≡ f k)
      → Reads Reason f (loaded b r)
  unfolding loaded get
  loaded-Reads Reason b f (kvs, some err) why same = why err refl
  loaded-Reads Reason b f (kvs, none) why same = same

  opened-Reads :
      (f : Contents) (r : B × Option Error)
      → (r.1 ≡ none → (k : String) → stored r.0 k ≡ f k)
      → Reads (λ err. (r.1 ≡ some err) ⊎ ((database.entries r.0).1 ≡ some err)) f (opened r)
  unfolding opened stored
  opened-Reads f (b, some err) same = inl refl
  opened-Reads f (b, none) same =
      loaded-Reads _ b f (database.entries b) (λ err e. inr e) (same refl)

  -- NewBoltKVStateMachine reads what the database holds.
  new_bolt_kv_state_machine-Reads :
      IsBolt B
      → (b : B) (f : Contents) → ((k : String) → stored b k ≡ f k)
      → Reads (FailsToOpen b) f (new_bolt_kv_state_machine (some b))
  unfolding new_bolt_kv_state_machine
  new_bolt_kv_state_machine-Reads law b f same =
      opened-Reads f (database.update database.create_bucket b) (λ ok k.
        elim (law.transactions database.create_bucket b) [
          | inl (e, failed) ↦ let bad = sym (ap (λ r. r.1) failed) ∙ ok in cc
          | inr (created, done) ↦ ap (λ r. stored r.0 k) done ∙ law.creates b k created ∙ same k
        ])

  module _ ⦃json : KvJson⦄ where
    restored_or_fail-Reads :
        (Reason : Error → Type 0) (f : Contents) (r : KvStateMachine B × Option Error)
        → ((err : Error) → r.1 ≡ some err → Reason err)
        → (r.1 ≡ none → Holds r.0 f)
        → Reads Reason f (restored_or_fail r)
    restored_or_fail-Reads Reason f (m, some err) why h = why err refl
    restored_or_fail-Reads Reason f (m, none) why h = h refl

    restore_snapshot-Reads :
        (bytes : Bytes) (m : KvStateMachine B) (f : Contents)
        → bytes ≢ []
        → IsSnapshotOf bytes f
        → Reads (FailsToRestore B bytes) f (restored_or_fail (restore_snapshot bytes m))
    restore_snapshot-Reads bytes m f some_bytes (map, read, same) =
        restored_or_fail-Reads (FailsToRestore B bytes) f (restore_snapshot bytes m)
          (λ err e. (m, e))
          (λ ok k.
            read_if (restore_snapshot bytes m).1 (get k m) (lookup k map) ok
              (get-restore_bytes bytes map m k some_bytes read)
            ∙ same k)

    module _ {D : Type 0} ⦃stable : StableStore D⦄ ⦃changes : MembershipJson⦄ (n : RaftNode D)
        (f : Contents) where
      -- What is known when a node starts: without a snapshot, the state machine `m` is ahead of the
      -- node; a snapshot is one of the map at the last applied index.
      abbrev pub Recorded : Bytes → ℕ → KvStateMachine B → Type 0
      Recorded [] j m = IsAhead n f j m
      Recorded (b ∷ bs) j m = IsSnapshotOf (b ∷ bs) f

      -- ApplyCommitted implements the map with the state machine.
      abbrev pub CatchesUp : KvStateMachine B → Type 0
      CatchesUp m = Returns (apply_committed n m) (λ o.
          (r : RaftNode D × KvStateMachine B × Option Error) × (o ≡ some r) × Implements n f r)

      -- An error that has a reason, or a state machine that catches up.
      abbrev pub Recovers : (Error → Type 0) → Option (KvStateMachine B) × Option Error → Type 0
      Recovers Reason (some m, none) = CatchesUp m
      Recovers Reason (none, some err) = Reason err
      Recovers Reason (none, none) = ⊥
      Recovers Reason (some m, some err) = ⊥

      Reads-Recovers :
          (P Q : Error → Type 0) (g : Contents) (r : Option (KvStateMachine B) × Option Error)
          → ((err : Error) → P err → Q err)
          → ((m : KvStateMachine B) → Holds m g → CatchesUp m)
          → Reads P g r
          → Recovers Q r
      Reads-Recovers P Q g (some m, none) why applies h = applies m h
      Reads-Recovers P Q g (none, some err) why applies h = why err h
      Reads-Recovers P Q g (none, none) why applies h = absurd h
      Reads-Recovers P Q g (some m, some err) why applies h = absurd h

      opened_or_fail-Recovers :
          (P : Error → Type 0) (bytes : Bytes) (j : ℕ) (m : KvStateMachine B)
          (r : Option (KvStateMachine B) × Option Error)
          → IsWellFormed n
          → Recorded bytes j m
          → Reads P (λ k. get k m) r
          → Recovers (λ err. P err ⊎ FailsToRestore B bytes err) (opened_or_fail bytes r)
      unfolding restore_if_any
      opened_or_fail-Recovers P [] j m (some m', none) w (held, committed, there) h =
          replays n f j m' w ((λ k. h k ∙ held k), committed, there)
      opened_or_fail-Recovers P (b ∷ bs) j m (some m', none) w recorded h =
          Reads-Recovers (FailsToRestore B (b ∷ bs)) (λ err. P err ⊎ FailsToRestore B (b ∷ bs) err)
            f (restored_or_fail (restore_snapshot (b ∷ bs) m')) (λ err e. inr e)
            (λ m'' h. apply_committed-Implements n f m'' w h)
            (restore_snapshot-Reads (b ∷ bs) m' f (λ e. cc) recorded)
      opened_or_fail-Recovers P bytes j m (none, some err) w recorded h = inl h
      opened_or_fail-Recovers P bytes j m (none, none) w recorded h = absurd h
      opened_or_fail-Recovers P bytes j m (some m', some err) w recorded h = absurd h

      -- A node that starts with the database of a state machine recovers it. Either the database or
      -- RestoreSnapshot fails, and the start with it; or the state machine that run opens is one
      -- that ApplyCommitted, run alone, brings up to date: it does not panic, comes to an end, and,
      -- if it returns no error, leaves the state machine reading what the commands of the committed
      -- entries make of the map at the last applied index. If the node has a snapshot, it is one of
      -- that map. If it has none, the state machine may be ahead of the node: it has been given
      -- that map, and then some committed entries of the log, which it is now given again. The
      -- bucket behaves as bbolt documents, agrees with that state machine, and the node that
      -- applies is well-formed.
      pub start_machine-Recovers :
          (s : RaftNode D) (b : B) (j : ℕ) (m : KvStateMachine B)
          → IsBolt B
          → m.db ≡ some b
          → IsMirrored m
          → IsWellFormed n
          → Recorded s.snapshot j m
          → Recovers
              (λ err. FailsToOpen b err ⊎ FailsToRestore B s.snapshot err)
              (start_machine s b)
      unfolding start_machine
      start_machine-Recovers s b j m law has mirrored w recorded =
          opened_or_fail-Recovers (FailsToOpen b) s.snapshot j m
            (new_bolt_kv_state_machine (some b)) w recorded
            (new_bolt_kv_state_machine-Reads law b (λ k. get k m) (mirrored b has))
