-- ===== src/Transport/Dialing.antt =====
-- raftgrpc/client.go: which connections DialPeerClient opens, which it closes, and whom they reach.
use rv_key_value.Base.{
  ℕ, suc, ◌+◌, ◌-◌, ◌≤◌, String, Option, none, some, List, [], ◌∷◌, ◌++◌, ◌≡◌, ◌⊎◌, inl, inr, refl,
  subst, arith, length, length-append, str_eq, eq_iff, Bool-cases, ◌∙◌,
}
use rv_key_value.Base.Map.{Map, lookup, insert, lookup-insert}
use rv_key_value.Raft.Types.{Error}
use rv_key_value.Transport.Client.{
  Dialer, PeerClient, close_connections, dialed, dial_peers, dial_peer_client,
}

-- No key stands twice.
abbrev pub HasDistinctKeys {ℓ} : {V : Type ℓ} → Map V → Type ℓ
HasDistinctKeys [] = Unit
HasDistinctKeys ((k, v) ∷ m) = (lookup k m ≡ none) × HasDistinctKeys m

-- What a dial may lead to: a connection more that is open and reaches the address, or an error.
abbrev pub Opens :
    {C W : Type 0} → (W → ℕ) → (String → C → Type 0) → String → W → W × (C ⊎ Error) → Type 0
Opens open_count Reaches addr w (w', inl conn) =
    (open_count w' ≡ suc (open_count w)) × Reaches addr conn
Opens open_count Reaches addr w (w', inr err) = open_count w' ≡ open_count w

-- The dialer and Close keep count of the connections that are open.
pub record IsNetwork {C W : Type 0} ⦃dialer : Dialer C W⦄ (open_count : W → ℕ)
    (Reaches : String → C → Type 0) : Type 0 where
  pub opens : (addr : String) (w : W) → Opens open_count Reaches addr w (dialer.new_client addr w)
  pub closes : (conn : C) (w : W) → open_count (dialer.close_client conn w).0 ≡ open_count w - 1

-- A peer that has an address has a connection that reaches it; another has what it had.
abbrev pub Serves :
    {C : Type 0} → (String → C → Type 0) → Option String → Option C → Option C → Type 0
Serves {C} Reaches (some addr) old new = (conn : C) × (new ≡ some conn) × Reaches addr conn
Serves Reaches none old new = new ≡ old

module _ {C W : Type 0} ⦃dialer : Dialer C W⦄ (open_count : W → ℕ)
    (Reaches : String → C → Type 0) where
  abbrev pub Outcome :
      Map String → List C → Map C → W → W × (PeerClient C × List C ⊎ Error) → Type 0
  Outcome peers conns clients w (w', inl (c, conns')) =
      (open_count w' + length conns ≡ open_count w + length conns')
      × (length conns' ≡ length conns + length peers)
      × ((id : String) → Serves Reaches (lookup id peers) (lookup id clients) (lookup id c.clients))
  Outcome peers conns clients w (w', inr err) = open_count w' + length conns ≡ open_count w

  module _ (network : IsNetwork open_count Reaches) where
    closed_count :
        (conns : List C) (w : W)
        → open_count (close_connections conns w).0 ≡ open_count w - length conns
    unfolding close_connections
    closed_count [] w = omega arith
    closed_count (conn ∷ conns) w =
        omega (arith, closed_count conns (dialer.close_client conn w).0, network.closes conn w)

    one_address_more :
        (id k addr : String) (peers : Map String) (conn : C) (clients : Map C) (new : Option C)
        → lookup k peers ≡ none
        → Reaches addr conn
        → Serves Reaches (lookup id peers) (lookup id (insert k conn clients)) new
        → Serves Reaches (lookup id ((k, addr) ∷ peers)) (lookup id clients) new
    unfolding lookup
    one_address_more id k addr peers conn clients new unique reaches s =
        elim (Bool-cases (str_eq k id)) [
          | inl same ↦
              let missing : lookup id peers ≡ none = ground (arith, eq_iff k id) in
              rw same (
                conn,
                subst (λ o. Serves Reaches o (lookup id (insert k conn clients)) new) missing s
                    ∙ (rw (lookup-insert k id conn clients) (rw same)),
                reaches,
              )
          | inr other ↦ rw other (
              subst (λ o. Serves Reaches (lookup id peers) o new)
                (rw (lookup-insert k id conn clients) (rw other)) s)
        ]

    one_more :
        (k addr : String) (peers : Map String) (conns : List C) (conn : C) (clients : Map C)
        (w w' : W) (result : W × (PeerClient C × List C ⊎ Error))
        → lookup k peers ≡ none
        → open_count w' ≡ suc (open_count w)
        → Reaches addr conn
        → Outcome peers (conns ++ conn ∷ []) (insert k conn clients) w' result
        → Outcome ((k, addr) ∷ peers) conns clients w result
    one_more k addr peers conns conn clients w w' (w'', inl (c, conns')) unique up reaches o = (
      omega (arith, o.0, up, length-append conns (conn ∷ [])),
      omega (arith, o.1, length-append conns (conn ∷ [])),
      λ id.
          one_address_more id k addr peers conn clients (lookup id c.clients) unique reaches
            (o.2 id),
    )
    one_more k addr peers conns conn clients w w' (w'', inr err) unique up reaches o =
        omega (arith, o, up, length-append conns (conn ∷ []))

    dialed_lem :
        (k addr : String) (peers : Map String) (conns : List C) (clients : Map C) (w : W)
        (result : W × (C ⊎ Error)) (rest : List C → Map C → W → W × (PeerClient C × List C ⊎ Error))
        → lookup k peers ≡ none
        → length conns ≤ open_count w
        → Opens open_count Reaches addr w result
        → ((conns' : List C) (clients' : Map C) (w' : W)
            → length conns' ≤ open_count w'
            → Outcome peers conns' clients' w' (rest conns' clients' w'))
        → Outcome ((k, addr) ∷ peers) conns clients w (dialed k conns clients result rest)
    dialed_lem k addr peers conns clients w (w', inr err) rest unique few o ih =
        omega (arith, closed_count conns w')
    dialed_lem k addr peers conns clients w (w', inl conn) rest unique few o ih =
        one_more k addr peers conns conn clients w w'
          (rest (conns ++ conn ∷ []) (insert k conn clients) w') unique o.0 o.1
          (ih (conns ++ conn ∷ []) (insert k conn clients) w'
            (omega (arith, few, o.0, length-append conns (conn ∷ []))))

    dial_peers-Outcome :
        (peers : Map String) (conns : List C) (clients : Map C) (w : W)
        → HasDistinctKeys peers
        → length conns ≤ open_count w
        → Outcome peers conns clients w (dial_peers peers conns clients w)
    unfolding dial_peers
    dial_peers-Outcome [] conns clients w distinct few =
        (refl, omega arith, λ id. unfold lookup in refl)
    dial_peers-Outcome ((k, addr) ∷ peers) conns clients w distinct few =
        dialed_lem k addr peers conns clients w (dialer.new_client addr w) (dial_peers peers)
          distinct.0 few (network.opens addr w)
          λ conns' clients' w' few'. dial_peers-Outcome peers conns' clients' w' distinct.1 few'

    -- What DialPeerClient leads to: a client with the closing function's connections, or an error.
    abbrev pub IsDialed : Map String → W → W × (PeerClient C × List C ⊎ Error) → Type 0
    IsDialed peers w (w', inl (c, conns)) =
        (length conns ≡ length peers)
        × (open_count w' ≡ open_count w + length peers)
        × (open_count (close_connections conns w').0 ≡ open_count w)
        × ((id : String) → Serves Reaches (lookup id peers) none (lookup id c.clients))
    IsDialed peers w (w', inr err) = open_count w' ≡ open_count w

    whole_dial :
        (peers : Map String) (w : W) (result : W × (PeerClient C × List C ⊎ Error))
        → Outcome peers [] [] w result
        → IsDialed peers w result
    unfolding lookup
    whole_dial peers w (w', inl (c, conns)) o = (
      omega (arith, o.1),
      omega (arith, o.0, o.1),
      omega (arith, o.0, closed_count conns w'),
      o.2,
    )
    whole_dial peers w (w', inr err) o = omega (arith, o)

    -- DialPeerClient leaks no connection and mixes up no peer, if the dialer and Close keep count of
    -- the open connections, a dialed connection reaches its address, and no peer id stands twice. If
    -- it returns a client, one connection more is open for each peer, the closing function closes
    -- as many as were opened, each peer's id has a connection that reaches the peer's address, and
    -- any other id has none. If it fails, as many connections are open as before.
    pub dial_peer_client-IsDialed :
        (peers : Map String) (w : W)
        → HasDistinctKeys peers
        → IsDialed peers w (dial_peer_client peers w)
    unfolding dial_peer_client
    dial_peer_client-IsDialed peers w distinct =
        whole_dial peers w (dial_peers peers [] [] w)
          (dial_peers-Outcome peers [] [] w distinct (omega arith))
