-- ===== src/Raft/Cluster/Safety.antt =====
-- A cluster with a fixed membership elects at most one leader in a term.
use rv_key_value.Base.{
  ℕ, String, Bool, true, Option, List, ◌∷◌, ◌≡◌, ◌≢◌, ◌⊎◌, inl, inr, sym, ap, ◌∙◌, subst, Has,
  if◌then◌else◌, ret, Returns, if-both,
}
use rv_key_value.Raft.Types.{StableStore, Error, leader}
use rv_key_value.Raft.Membership.{MembershipJson}
use rv_key_value.Raft.Node.{RaftNode}
use rv_key_value.Raft.Log.WellFormed.{IsWellFormed}
use rv_key_value.Raft.Keeps.{KeepsVote, Follows, elected}
use rv_key_value.Raft.Election.{promote_candidate}
use rv_key_value.Raft.Steps.{Operation, perform, IsAllowed}
use rv_key_value.Raft.Steps.Reach.{IsQuiet, perform-Follows}
use rv_key_value.Raft.Steps.Keep.{promote_candidate-Follows}
use rv_key_value.Raft.Cluster.Quorum.{majorities_meet}
use rv_key_value.Raft.Cluster.Ballots.{
  ballot, Casts, Kept, Kept-put, put_all, cast-Casts, cast-grows,
}
use rv_key_value.Raft.Cluster.{
  Ballot, Cluster, put, cast, IsNamed, Won, Step, act, elect, Reaches, start, then_step, IsStart,
}

Won-grows :
    (voters : List String) (bs bs' : List Ballot) (t : ℕ) (v : String)
    → ((b : Ballot) → Has b bs → Has b bs')
    → Won voters bs t v
    → Won voters bs' t v
Won-grows voters bs bs' t v more w = record {
  supports = w.supports;
  enough = w.enough;
  voted = λ x e. more (ballot t x v) (w.voted x e);
}

module _ {D : Type 0} ⦃stable : StableStore D⦄ ⦃json : MembershipJson⦄ (voters : List String) where
  -- What holds of a cluster at every step.
  record IsSafe (c : Cluster D) : Type 0 where
    shape : (v : String) → IsWellFormed (c.nodes v)
    names : (v : String) → (c.nodes v).id ≡ v
    kept : Kept c.nodes c.ballots
    won : (t : ℕ) (v : String) → Has (t, v) c.leaders → Won voters c.ballots t v
    led : (v : String) → (c.nodes v).state ≡ leader → Has ((c.nodes v).current_term, v) c.leaders

  IsStart-IsSafe : (c : Cluster D) → IsStart voters c → IsSafe c
  IsStart-IsSafe c s = record {
    shape = s.shape;
    names = s.names;
    kept =
        subst (Kept c.nodes) (sym s.no_ballots)
          (record { remembered = λ t x k h. absurd h; once = λ t x a b h. absurd h });
    won = λ t v h. absurd (subst (Has (t, v)) s.no_leaders h);
    led = λ v e. absurd (s.none_leads v e);
  }

  -- Two leaders of a term are one.
  one_winner :
      (c : Cluster D)
      → IsSafe c
      → (t : ℕ) (a b : String) → Has (t, a) c.leaders
      → Has (t, b) c.leaders
      → a ≡ b
  one_winner c s t a b ha hb =
      let wa = s.won t a ha in
      let wb = s.won t b hb in
      let (x, xa, xb) = majorities_meet wa.supports wb.supports voters wa.enough wb.enough in
      s.kept.once t x a b (wa.voted x xa) (wb.voted x xb)

  -- The cluster after node `v` changes.
  changed_IsSafe :
      (c : Cluster D) (v : String) (m : RaftNode D) (bs : List Ballot) (ls : List (ℕ × String))
      → IsSafe c
      → IsWellFormed m × (m.id ≡ (c.nodes v).id) × KeepsVote (c.nodes v) m
      → Casts v m c.ballots bs
      → ((b : Ballot) → Has b c.ballots → Has b bs)
      → ((l : ℕ × String) → Has l c.leaders → Has l ls)
      → ((t : ℕ) (x : String) → Has (t, x) ls → Won voters bs t x)
      → (m.state ≡ leader → Has (m.current_term, v) ls)
      → IsSafe (record { nodes = put v m c.nodes; ballots = bs; leaders = ls })
  changed_IsSafe c v m bs ls s (shape, name, keeps) casts more later won led = record {
    shape = λ x. put_all (λ y n. IsWellFormed n) c.nodes v m shape x (s.shape x);
    names = λ x. put_all (λ y n. n.id ≡ y) c.nodes v m (name ∙ s.names v) x (s.names x);
    kept = Kept-put c.nodes v m c.ballots bs s.kept keeps casts;
    won = won;
    led = λ x.
        put_all (λ y n. n.state ≡ leader → Has (n.current_term, y) ls) c.nodes v m led x
          (λ e. later _ (s.led x e));
  }

  act_IsSafe :
      (c : Cluster D) (v : String) (m : RaftNode D) (op : Operation)
      → IsSafe c
      → v ≢ ""
      → IsQuiet op
      → IsNamed op
      → IsAllowed op (c.nodes v)
      → perform op (c.nodes v) ≡ ret m
      → IsSafe (record {
        nodes = put v m c.nodes;
        ballots = cast v op (c.nodes v) c.ballots;
        leaders = c.leaders;
      })
  act_IsSafe c v m op s named quiet cand allowed e =
      let f =
        subst (λ r. Returns r (Follows (c.nodes v))) e
          (perform-Follows op (c.nodes v) quiet (s.shape v) allowed) in
      let more = cast-grows v op (c.nodes v) c.ballots in
      changed_IsSafe c v m (cast v op (c.nodes v) c.ballots) c.leaders s (f.shape, f.name, f.votes)
        (cast-Casts v op (c.nodes v) m c.ballots named (s.names v) cand allowed e) more (λ l h. h)
        (λ t x h. Won-grows voters c.ballots _ t x more (s.won t x h))
        (λ r.
          let (was, same) = f.role r in subst (λ t. Has (t, v) c.leaders) (sym same) (s.led v was))

  elect_IsSafe :
      (c : Cluster D) (v : String) (term : ℕ) (m : RaftNode D) (won : Bool) (err : Option Error)
      → IsSafe c
      → Won voters c.ballots term v
      → promote_candidate term (c.nodes v) ≡ ret (m, won, err)
      → IsSafe (record {
        nodes = put v m c.nodes;
        ballots = c.ballots;
        leaders = if won then (term, v) ∷ c.leaders else c.leaders;
      })
  elect_IsSafe c v term m won err s w e =
      let ls = (if won then (term, v) ∷ c.leaders else c.leaders) in
      let f =
        subst
          (λ r. Returns r (λ a.
            Follows (c.nodes v) a.0
            ⊎ (((c.nodes v).current_term ≡ term)
                × (a.1 ≡ true)
                × Follows (elected (c.nodes v)) a.0)))
          e (promote_candidate-Follows (c.nodes v) (s.shape v) term) in
      let later = λ (l : ℕ × String) (h : Has l c.leaders). if-both (Has l) won _ _ (inr h) h in
      changed_IsSafe c v m c.ballots ls s
        (elim f [ inl g ↦ (g.shape, g.name, g.votes) | inr (t, r, g) ↦ (g.shape, g.name, g.votes) ])
        (λ b h. inl h) (λ b h. h) later
        (λ t x.
          if-both (λ l. Has (t, x) l → Won voters c.ballots t x) won _ _
            (λ h. elim h [
              | inl same ↦ subst (λ (l : ℕ × String). Won voters c.ballots l.0 l.1) (sym same) w
              | inr old ↦ s.won t x old
            ])
            (s.won t x))
        (λ r. elim f [
          | inl g ↦
              let (was, same) = g.role r in
              subst (λ t. Has (t, v) ls) (sym same) (later _ (s.led v was))
          | inr (t, h, g) ↦ rw h (inl (ap (λ q. (q, v)) ((g.role r).1 ∙ t)))
        ])

  Step-IsSafe : {c d : Cluster D} → IsSafe c → Step voters c d → IsSafe d
  Step-IsSafe {c = c} s (act {v = v} {m = m} op named quiet cand allowed e) =
      act_IsSafe c v m op s named quiet cand allowed e
  Step-IsSafe {c = c} s (elect {v = v} {term = term} {m = m} {won = won} {err = err} w e) =
      elect_IsSafe c v term m won err s w e

  Reaches-IsSafe : {c d : Cluster D} → IsSafe c → Reaches voters c d → IsSafe d
  Reaches-IsSafe s start = s
  Reaches-IsSafe s (then_step r t) = Step-IsSafe (Reaches-IsSafe s r) t

  -- A cluster elects at most one leader in a term: two nodes that became leader in the same term, at
  -- any two moments of a run, are the same node. The run starts with well-formed nodes that have
  -- their own names, where none leads; the voters are fixed; and each step is an allowed operation of
  -- a node, or promoteCandidate at a node for which a majority of the voters had cast their vote.
  pub one_leader_per_term :
      (c d : Cluster D) (t : ℕ) (a b : String)
      → IsStart voters c
      → Reaches voters c d
      → Has (t, a) d.leaders
      → Has (t, b) d.leaders
      → a ≡ b
  one_leader_per_term c d t a b s r ha hb =
      one_winner d (Reaches-IsSafe (IsStart-IsSafe c s) r) t a b ha hb

  -- In every state that such a cluster reaches, two nodes in the role of a leader that have the same
  -- term are the same node. The start and the steps are those of one_leader_per_term.
  pub leaders_agree :
      (c d : Cluster D) (a b : String)
      → IsStart voters c
      → Reaches voters c d
      → (d.nodes a).state ≡ leader
      → (d.nodes b).state ≡ leader
      → (d.nodes a).current_term ≡ (d.nodes b).current_term
      → a ≡ b
  leaders_agree c d a b s r la lb same =
      let safe = Reaches-IsSafe (IsStart-IsSafe c s) r in
      one_winner d safe (d.nodes b).current_term a b
        (subst (λ t. Has (t, a) d.leaders) same (safe.led a la)) (safe.led b lb)
