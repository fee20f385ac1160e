-- ===== src/Http/Proposing/Acknowledged.antt =====
-- client/http.go: a handler that goes on after its proposal has seen it committed and applied.
use rv_key_value.Base.{
  ap, ◌∙◌, Returns-same, Returns-map, Bool, ℕ, ◌+◌, ◌≤◌, ◌<◌, ◌≡◌, ◌⊎◌, inl, inr, refl, arith,
  Option, none, some, length, All, u64_mod, ◌>>=◌, ret, Returns, Returns-bind,
}
use rv_key_value.Raft.Types.{Bytes, Error, LogEntry, StableStore}
use rv_key_value.Raft.Membership.{MembershipJson}
use rv_key_value.Raft.Node.{RaftNode}
use rv_key_value.Raft.Log.WellFormed.{IsWellFormed}
use rv_key_value.Raft.Append.{local_entry}
use rv_key_value.Raft.Apply.{apply_committed}
use rv_key_value.Raft.Apply.Order.{Fed, apply_committed-Fed}
use rv_key_value.Raft.Election.Winning.{IsSound}
use rv_key_value.Raft.Replicate.{Proposal, returned, waiting}
use rv_key_value.Raft.Replicate.Proposals.{IsSoundAttempt, Proposes, propose-Proposes}
use rv_key_value.Store.Command.{KvJson}
use rv_key_value.Store.Database.{Database}
use rv_key_value.Store.Machine.{KvStateMachine, kv_state_machine}
use rv_key_value.Http.Message.{Request, Response, text, http_error}
use rv_key_value.Http.Forward.{HttpClient}
use rv_key_value.Http.Proposing.{
  propose, Api, ProposalRun, Progress, waits, answered, goes_on, Failure, leads_not, timed_out,
  another, answer_as, failure_of, or_response, forward_to_leader, answer_failure, apply_proposed,
  applied_progress, propose_and_apply,
}

module _ {D B : Type 0} where
  -- What other goroutines do to the node and the state machine leaves a well-formed node, and the
  -- commit index does not fall.
  abbrev pub IsSoundTurn : (RaftNode D × KvStateMachine B → RaftNode D × KvStateMachine B) → Type 0
  IsSoundTurn e =
      (n : RaftNode D) (m : KvStateMachine B)
      → IsWellFormed n
      → IsWellFormed (e (n, m)).0 × (n.commit_index ≤ (e (n, m)).0.commit_index)

  -- What happens around a proposal keeps a node well-formed, and there is room for one more entry.
  pub record IsSoundRun (run : ProposalRun D B) (n : RaftNode D) : Type 0 where
    pub before_append : IsSound run.before_append
    pub room :
        (run.before_append n).last_included_index + length (run.before_append n).log + 2 < u64_mod
    pub attempts : All IsSoundAttempt run.attempts
    pub before_apply : IsSoundTurn run.before_apply
    pub before_leader : IsSound run.before_leader

module _ {D B : Type 0} ⦃stable : StableStore D⦄ ⦃members : MembershipJson⦄ ⦃database : Database B⦄
    ⦃json : KvJson⦄ where
  -- What ApplyCommitted leaves, called on the node and the state machine, if it returns no error: the
  -- index was committed when it began.
  abbrev pub Applies :
      ℕ → RaftNode D × KvStateMachine B → RaftNode D × KvStateMachine B × Option Error → Type 0
  Applies index s (n, m, some err) = IsWellFormed n
  Applies index s (n, m, none) =
      IsWellFormed n × (index ≤ s.0.commit_index) × Fed s.0 s.1 (n, m, none)

  applies_lem :
      (index : ℕ) (n1 : RaftNode D) (m1 : KvStateMachine B)
      (r : RaftNode D × KvStateMachine B × Option Error)
      → index ≤ n1.commit_index
      → Fed n1 m1 r
      → Applies index (n1, m1) r
  applies_lem index n1 m1 (n, m, some err) passed fed = fed.0.0
  applies_lem index n1 m1 (n, m, none) passed fed = (fed.0.0, passed, fed)

  pub apply_proposed-Applies :
      (index : ℕ) (s : RaftNode D × KvStateMachine B)
      → IsWellFormed s.0
      → index ≤ s.0.commit_index
      → Returns (apply_proposed s) (Applies index s)
  unfolding apply_proposed
  apply_proposed-Applies index (n1, m1) w passed =
      Returns-bind
        (λ o. (r : RaftNode D × KvStateMachine B × Option Error) × (o ≡ some r) × Fed n1 m1 r)
        (Applies index (n1, m1)) (apply_committed n1 m1) _ (apply_committed-Fed n1 m1 w)
        (λ o (r, e, fed). rw e (applies_lem index n1 m1 r passed fed))

module _ {D B : Type 0} ⦃stable : StableStore D⦄ ⦃members : MembershipJson⦄ ⦃database : Database B⦄
    ⦃json : KvJson⦄ (run : ProposalRun D B) (has_client : Bool) (command : Bytes) (n : RaftNode D)
    (m : KvStateMachine B) where
  -- The entry that the proposal appends.
  abbrev pub own_entry : LogEntry
  own_entry = local_entry command (run.before_append n)

  -- The proposal of the run returned the node `n0` and no error; the entry was committed when
  -- ApplyCommitted began on that node, as other goroutines left it, and on the state machine, as they
  -- left it; and ApplyCommitted came to `n'` and `m'` without an error.
  abbrev pub HasApplied : RaftNode D → KvStateMachine B → Type 0
  HasApplied n' m' =
      (n0 : RaftNode D) × (propose run.context has_client run.before_append command run.attempts n
        ≡ ret (returned n0 own_entry none))
      × (own_entry.index ≤ (run.before_apply (n0, m)).0.commit_index)
      × Fed (run.before_apply (n0, m)).0 (run.before_apply (n0, m)).1 (n', m', none)

  -- The outcome of a proposal, with what it is known to have come to.
  abbrev pub IsOutcome : Proposal D → Type 0
  IsOutcome p =
      (propose run.context has_client run.before_append command run.attempts n ≡ ret p)
      × Proposes own_entry p

  pub propose-IsOutcome :
      IsWellFormed n
      → IsSoundRun run n
      → Returns (propose run.context has_client run.before_append command run.attempts n) IsOutcome
  propose-IsOutcome w s =
      Returns-same (Proposes own_entry)
        (propose run.context has_client run.before_append command run.attempts n)
        (propose-Proposes run.context has_client run.before_append command run.attempts n w
          s.before_append s.room s.attempts)

  -- ApplyCommitted after a proposal without an error.
  abbrev pub AppliesOwn : RaftNode D × KvStateMachine B × Option Error → Type 0
  AppliesOwn (n', m', some err) = IsWellFormed n'
  AppliesOwn (n', m', none) = IsWellFormed n' × HasApplied n' m'

  own_lem :
      (n0 : RaftNode D) (r : RaftNode D × KvStateMachine B × Option Error)
      → propose run.context has_client run.before_append command run.attempts n
        ≡ ret (returned n0 own_entry none)
      → Applies own_entry.index (run.before_apply (n0, m)) r
      → AppliesOwn r
  own_lem n0 (n', m', some err) e w = w
  own_lem n0 (n', m', none) e (w, passed, fed) = (w, (n0, e, passed, fed))

  pub apply_proposed-AppliesOwn :
      (n0 : RaftNode D) (entry : LogEntry)
      → IsSoundRun run n
      → IsOutcome (returned n0 entry none)
      → Returns (apply_proposed (run.before_apply (n0, m))) AppliesOwn
  apply_proposed-AppliesOwn n0 entry s (e, (w, ok)) =
      let (w1, rises) = s.before_apply n0 m w in
      let (same, committed) = ok refl in
      Returns-map (apply_proposed (run.before_apply (n0, m)))
        (apply_proposed-Applies own_entry.index (run.before_apply (n0, m)) w1
          (omega (arith, committed, rises)))
        (λ r a. own_lem n0 r (e ∙ ap (λ x. ret (returned n0 x none)) same) a)

-- The status of a failure that a handler finds itself.
abbrev pub IsFailure : Response → Type 0
IsFailure response = (response.status ≡ 409) ⊎ (response.status ≡ 500) ⊎ (response.status ≡ 504)

module _ {D : Type 0} ⦃http : HttpClient⦄ (api : Api) (r : Request) (forward_body : Bytes)
    (n : RaftNode D) where
  -- A response that is the leader's, or that says that the leader could not be reached.
  abbrev pub IsRelayed : Response → Type 0
  IsRelayed response = forward_to_leader api r forward_body n ≡ some response

  pub own_answer :
      (own : Response)
      → IsFailure own
      → (o : Option Response) → forward_to_leader api r forward_body n ≡ o
      → IsFailure (or_response own o) ⊎ IsRelayed (or_response own o)
  own_answer own fails none e = inl fails
  own_answer own fails (some response) e = inr e

  answer_as-IsFailure :
      (f : Failure) (err : Error)
      → IsFailure (answer_as f api r forward_body err n)
        ⊎ IsRelayed (answer_as f api r forward_body err n)
  answer_as-IsFailure leads_not err =
      own_answer (http_error (text "not leader") 409) (inl refl)
        (forward_to_leader api r forward_body n) refl
  answer_as-IsFailure timed_out err = inl (inr (inr refl))
  answer_as-IsFailure another err = inl (inr (inl refl))

module _ {D B : Type 0} ⦃stable : StableStore D⦄ ⦃members : MembershipJson⦄ ⦃database : Database B⦄
    ⦃json : KvJson⦄ ⦃http : HttpClient⦄ (run : ProposalRun D B) (api : Api) (r : Request)
    (command forward_body : Bytes) (n : RaftNode D) (m : KvStateMachine B) where
  -- What proposeAndApply comes to.
  abbrev pub Settled : Progress D B → Type 0
  Settled (waits n' m') = IsWellFormed n'
  Settled (goes_on n' m') = IsWellFormed n' × HasApplied run api.has_client command n m n' m'
  Settled (answered n' m' response) =
      IsWellFormed n' × (IsFailure response ⊎ IsRelayed api r forward_body n' response)

  progress_lem :
      (x : RaftNode D × KvStateMachine B × Option Error)
      → AppliesOwn run api.has_client command n m x
      → Settled (applied_progress x)
  progress_lem (n', m', some err) a = (a, inl (inr (inl refl)))
  progress_lem (n', m', none) a = a

  after_proposal :
      IsSoundRun run n
      → (p : Proposal D) → IsOutcome run api.has_client command n m p
      → Returns {A = Progress D B}
          (elim p [
            | waiting n1 ↦ ret (waits n1 m)
            | returned n1 e (some err) ↦
                let n2 = run.before_leader n1 in
                ret (answered n2 m (answer_failure api r forward_body err n2))
            | returned n1 e none ↦ do
              applied ← apply_proposed (run.before_apply (n1, m))
              ret (applied_progress applied)
          ])
          Settled
  after_proposal s (waiting n1) (e, w) = w
  after_proposal s (returned n1 entry (some err)) (e, (w, ok)) = (
    s.before_leader n1 w,
    unfold answer_failure in
        answer_as-IsFailure api r forward_body (run.before_leader n1) (failure_of err) err,
  )
  after_proposal s (returned n1 entry none) outcome =
      Returns-bind (AppliesOwn run api.has_client command n m) Settled
        (apply_proposed (run.before_apply (n1, m))) _
        (apply_proposed-AppliesOwn run api.has_client command n m n1 entry s outcome)
        (λ x a. progress_lem x a)

  pub propose_and_apply-Settled :
      IsWellFormed n
      → IsSoundRun run n
      → Returns (propose_and_apply run api r command forward_body n m) Settled
  unfolding propose_and_apply
  propose_and_apply-Settled w s =
      Returns-bind (IsOutcome run api.has_client command n m) Settled _ _
        (propose-IsOutcome run api.has_client command n m w s) (λ p h. after_proposal s p h)
