-- ===== src/Store/Database.antt =====
-- The bbolt database behind store/kv_state_machine.go, as a parameter: the operations of the package
-- that the source calls on its bucket, and the transactions of the source.
use rv_key_value.Base.{String, Option, none, some, List, [], ◌∷◌}
use rv_key_value.Base.Map.{Map}
use rv_key_value.Raft.Types.{Bytes, Error}
use rv_key_value.Store.Command.{KvCommand, put, delete, noop, other}

-- `create_bucket` is CreateBucketIfNotExists, and `delete_bucket` is DeleteBucket with no error for a
-- bucket that is not there. `update` runs a transaction. `entries` is what ForEach visits
-- in a View of the bucket, which is nothing if there is no bucket.
pub record Database (B : Type 0) : Type 0 where
  pub update : (B → B × Option Error) → B → B × Option Error
  pub create_bucket : B → B × Option Error
  pub delete_bucket : B → B × Option Error
  pub put_key : String → Bytes → B → B × Option Error
  pub delete_key : String → B → B × Option Error
  pub entries : B → List (String × Bytes) × Option Error

-- `if err != nil { return err }`
abbrev pub and_then : {B : Type 0} → B × Option Error → (B → B × Option Error) → B × Option Error
and_then (b, some err) f = (b, some err)
and_then (b, none) f = f b

module _ {B : Type 0} ⦃database : Database B⦄ where
  -- The transaction of applyBolt.
  unfoldable pub apply_transaction : KvCommand → B → B × Option Error
  apply_transaction c b = and_then (database.create_bucket b) (λ b1. elim c.operation [
    | noop ↦ (b1, none)
    | put ↦ database.put_key c.key c.value b1
    | delete ↦ database.delete_key c.key b1
    | other t ↦ (b1, none)
  ])

  -- applyBolt
  unfoldable pub apply_bolt : KvCommand → B → B × Option Error
  unfolding apply_transaction
  apply_bolt c b = database.update (apply_transaction c) b

  unfoldable pub put_all : Map Bytes → B → B × Option Error
  put_all [] b = (b, none)
  put_all ((k, v) ∷ m) b = and_then (database.put_key k v b) (put_all m)

  -- restoreBolt
  unfoldable pub restore_bolt : Map Bytes → B → B × Option Error
  unfolding put_all
  restore_bolt m b =
      database.update
        (λ b1.
          and_then (database.delete_bucket b1)
            (λ b2. and_then (database.create_bucket b2) (put_all m)))
        b
