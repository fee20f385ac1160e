-- ===== src/Cmd/Peers/Parsed.antt =====
-- What the parsed list of peers is like.
use rv_key_value.Base.{
  true, subst, ap, ◌≡◌, ◌≢◌, ◌⊎◌, inl, inr, refl, sym, ◌∙◌, arith, String, false, Option, none,
  some, List, [], ◌∷◌, ◌++◌, ◌||◌, str_eq, eq_iff, if◌then◌else◌, Bool-cases, Option-cases, Has,
}
use rv_key_value.Base.Map.{Map, lookup, insert, lookup-insert}
use rv_key_value.Base.Texts.{split, split_two}
use rv_key_value.Raft.Types.{Error}
use rv_key_value.Raft.Membership.{trim_space}
use rv_key_value.Cmd.Peers.{
  PeerList, both_given, parse_peer, add_parsed, or_stop, parse_loop, parse_peers,
}

-- No text stands twice.
abbrev pub AreDistinct : List String → Type 0
AreDistinct [] = Unit
AreDistinct (x ∷ xs) = (Has x xs → ⊥) × AreDistinct xs

Has-snoc : (x y : String) (xs : List String) → Has x (xs ++ y ∷ []) → Has x xs ⊎ (x ≡ y)
Has-snoc x y [] (inl e) = inr e
Has-snoc x y [] (inr h) = absurd h
Has-snoc x y (z ∷ xs) (inl e) = inl (inl e)
Has-snoc x y (z ∷ xs) (inr h) = elim (Has-snoc x y xs h) [ inl k ↦ inl (inr k) | inr e ↦ inr e ]

Has-left : (x y : String) (xs : List String) → Has x xs → Has x (xs ++ y ∷ [])
Has-left x y [] h = absurd h
Has-left x y (z ∷ xs) (inl e) = inl e
Has-left x y (z ∷ xs) (inr h) = inr (Has-left x y xs h)

Has-last : (x y : String) (xs : List String) → y ≡ x → Has x (xs ++ y ∷ [])
Has-last x y [] e = inl (sym e)
Has-last x y (z ∷ xs) e = inr (Has-last x y xs e)

differs : (a b : String) → str_eq a b ≡ false → a ≡ b → ⊥
differs a b h e = ground (arith, eq_iff a b)

AreDistinct-snoc :
    (xs : List String) (y : String) → AreDistinct xs → (Has y xs → ⊥) → AreDistinct (xs ++ y ∷ [])
AreDistinct-snoc [] y d new = (λ h. h, tt)
AreDistinct-snoc (x ∷ xs) y (n, d) new = (
  λ h. elim (Has-snoc x y xs h) [ inl k ↦ n k | inr e ↦ new (inl (sym e)) ],
  AreDistinct-snoc xs y d (λ h. new (inr h)),
)

-- The ids are distinct, and the map has an address for each of them and for no other; neither an id
-- nor an address is empty.
pub record IsPeerList (ids : List String) (addrs : Map String) : Type 0 where
  pub distinct : AreDistinct ids
  pub known :
      (id : String)
      → Has id ids
      → (addr : String) × (lookup id addrs ≡ some addr) × (id ≢ "") × (addr ≢ "")
  pub only : (id : String) → (Has id ids → ⊥) → lookup id addrs ≡ none

-- The part of the text names the peer: it has the id before its first equals sign and the address
-- behind it, where space around the part, the id and the address does not count.
abbrev pub Names : String → String → String → Type 0
Names raw id addr =
    (k : String) × (v : String) × (split_two (trim_space raw) b'=' ≡ some (k, v))
    × (id ≡ trim_space k)
    × (addr ≡ trim_space v)

-- The parts of the text name the ids, one after the other, each with its address in the map.
abbrev pub Lists : List String → List String → Map String → Type 0
Lists [] [] addrs = Unit
Lists (raw ∷ raws) (id ∷ ids) addrs =
    ((addr : String) × Names raw id addr × (lookup id addrs ≡ some addr)) × Lists raws ids addrs
Lists [] (id ∷ ids) addrs = ⊥
Lists (raw ∷ raws) [] addrs = ⊥

-- A parsed pair has two parts, which the text names.
AreGiven : String → Option (String × String) → Type 0
AreGiven raw none = Unit
AreGiven raw (some (id, addr)) = (id ≢ "") × (addr ≢ "") × Names raw id addr

both_given-AreGiven :
    (raw : String) (o : Option (String × String))
    → split_two (trim_space raw) b'=' ≡ o
    → AreGiven raw (both_given o)
unfolding AreGiven
both_given-AreGiven raw none e = tt
both_given-AreGiven raw (some (a, b)) e =
    elim (Bool-cases (str_eq (trim_space a) "" || str_eq (trim_space b) "")) [
      | inl missing ↦ rw missing tt
      | inr given ↦ rw given (
        ground (arith, given, eq_iff (trim_space a) "", eq_iff (trim_space b) ""),
        ground (arith, given, eq_iff (trim_space a) "", eq_iff (trim_space b) ""),
        (a, b, e, refl, refl),
      )
    ]

-- The list with the peer of one part more.
abbrev IsLonger : String → List String → Map String → PeerList ⊎ Error → Type 0
IsLonger raw ids addrs (inr err) = Unit
IsLonger raw ids addrs (inl (ids', addrs')) =
    IsPeerList ids' addrs'
    × ((id : String) × (addr : String) × Names raw id addr
        × (ids' ≡ ids ++ id ∷ [])
        × (lookup id addrs' ≡ some addr)
        × ((k : String) → Has k ids → lookup k addrs' ≡ lookup k addrs))

-- The list with the peers of the parts at its end.
abbrev Extends : List String → List String → Map String → PeerList ⊎ Error → Type 0
Extends raws ids addrs (inr err) = Unit
Extends raws ids addrs (inl (ids', addrs')) =
    IsPeerList ids' addrs'
    × ((new : List String) × (ids' ≡ ids ++ new)
        × Lists raws new addrs'
        × ((k : String) → Has k ids → lookup k addrs' ≡ lookup k addrs))

added :
    (id addr : String) (ids : List String) (addrs : Map String)
    → (id ≢ "") × (addr ≢ "")
    → lookup id addrs ≡ none
    → IsPeerList ids addrs
    → IsPeerList (ids ++ id ∷ []) (insert id addr addrs)
added id addr ids addrs given new p =
    let unheard : Has id ids → ⊥ = λ h. let (a, found, b, c) = p.known id h in cc in
    record {
      distinct = AreDistinct-snoc ids id p.distinct unheard;
      known = λ x h. elim (Bool-cases (str_eq id x)) [
        | inl same ↦
            let e : id ≡ x = (eq_iff id x).0 same in
            (
              addr,
              rw (lookup-insert id x addr addrs) (rw same refl),
              λ blank. given.0 (e ∙ blank),
              given.1,
            )
        | inr other ↦ elim (Has-snoc x id ids h) [
          | inl k ↦
              let (a, found, b, c) = p.known x k in
              (a, rw (lookup-insert id x addr addrs) (rw other found), b, c)
          | inr e ↦ absurd (differs id x other (sym e))
        ]
      ];
      only = λ x h. elim (Bool-cases (str_eq id x)) [
        | inl same ↦ absurd (h (Has-last x id ids ((eq_iff id x).0 same)))
        | inr other ↦
            rw (lookup-insert id x addr addrs) (rw other (p.only x (λ k. h (Has-left x id ids k))))
      ];
    }

kept_lem :
    (id addr k : String) (ids : List String) (addrs : Map String)
    → lookup id addrs ≡ none
    → IsPeerList ids addrs
    → Has k ids
    → lookup k (insert id addr addrs) ≡ lookup k addrs
kept_lem id addr k ids addrs new p h = elim (Bool-cases (str_eq id k)) [
  | inr other ↦ rw (lookup-insert id k addr addrs) (rw other refl)
  | inl same ↦
      let (a, found, b, c) = p.known k h in
      let e : id ≡ k = (eq_iff id k).0 same in
      let bad = sym new ∙ ap (λ x. lookup x addrs) e ∙ found in cc
]

found_lem : (id addr : String) (addrs : Map String) → lookup id (insert id addr addrs) ≡ some addr
found_lem id addr addrs =
    let same : str_eq id id ≡ true = (eq_iff id id).1 refl in
    rw (lookup-insert id id addr addrs) (rw same refl)

add_parsed-IsLonger :
    (raw : String) (o : Option (String × String)) (ids : List String) (addrs : Map String)
    → AreGiven raw o
    → IsPeerList ids addrs
    → IsLonger raw ids addrs (add_parsed o ids addrs)
unfolding add_parsed AreGiven
add_parsed-IsLonger raw none ids addrs given p = tt
add_parsed-IsLonger raw (some (id, addr)) ids addrs (a, b, named) p =
    elim (Option-cases (lookup id addrs)) [
      | inl new ↦
          rw (new, add_parsed)
            (
              added id addr ids addrs (a, b) new p,
              (
                id,
                addr,
                named,
                refl,
                found_lem id addr addrs,
                λ k h. kept_lem id addr k ids addrs new p h,
              ),
            )
      | inr (old, e) ↦ rw (e, add_parsed) tt
    ]

append_assoc :
    (xs : List String) (y : String) (ys : List String) → (xs ++ y ∷ []) ++ ys ≡ xs ++ y ∷ ys
append_assoc [] y ys = refl
append_assoc (x ∷ xs) y ys = ap (λ l. x ∷ l) (append_assoc xs y ys)

append_nil : (xs : List String) → xs ++ [] ≡ xs
append_nil [] = refl
append_nil (x ∷ xs) = ap (λ l. x ∷ l) (append_nil xs)

rest_lem :
    (raw : String) (raws ids : List String) (addrs : Map String) (r : PeerList ⊎ Error)
    (rest : List String → Map String → PeerList ⊎ Error)
    → IsLonger raw ids addrs r
    → ((ids' : List String) (addrs' : Map String)
        → IsPeerList ids' addrs'
        → Extends raws ids' addrs' (rest ids' addrs'))
    → Extends (raw ∷ raws) ids addrs (or_stop r rest)
rest_lem raw raws ids addrs (inr err) rest one more = tt
rest_lem raw raws ids addrs (inl (ids', addrs')) rest (p, (id, addr, named, e, found, kept)) more =
    by_rest (rest ids' addrs') (more ids' addrs' p)
  where
    by_rest : (r : PeerList ⊎ Error) → Extends raws ids' addrs' r → Extends (raw ∷ raws) ids addrs r
    by_rest (inr err) h = tt
    by_rest (inl (ids'', addrs'')) (q, (new, f, listed, kept')) = (
      q,
      (
        id ∷ new,
        f ∙ ap (λ l. l ++ new) e ∙ append_assoc ids id new,
        (
          (addr, named, kept' id (subst (Has id) (sym e) (Has-last id id ids refl)) ∙ found),
          listed,
        ),
        λ k h. kept' k (subst (Has k) (sym e) (Has-left k id ids h)) ∙ kept k h,
      ),
    )

parse_loop-Extends :
    (raws ids : List String) (addrs : Map String)
    → IsPeerList ids addrs
    → Extends raws ids addrs (parse_loop raws ids addrs)
unfolding parse_loop parse_peer
parse_loop-Extends [] ids addrs p = (p, ([], sym (append_nil ids), tt, λ k h. refl))
parse_loop-Extends (x ∷ raws) ids addrs p =
    rest_lem x raws ids addrs (add_parsed (parse_peer x) ids addrs) (parse_loop raws)
      (add_parsed-IsLonger x (parse_peer x) ids addrs
        (both_given-AreGiven x (split_two (trim_space x) b'=') refl) p)
      (λ ids' addrs' q. parse_loop-Extends raws ids' addrs' q)

-- The parts of the text that name peers: none of a blank text, and else those between commas.
abbrev pub parts_of : String → List String
parts_of value = if str_eq (trim_space value) "" then [] else split value b','

-- What parsePeers accepts: the peers that the parts name.
abbrev pub IsParsed : String → PeerList ⊎ Error → Type 0
IsParsed value (inr err) = Unit
IsParsed value (inl (ids, addrs)) = IsPeerList ids addrs × Lists (parts_of value) ids addrs

parsed_lem :
    (value : String) (raws : List String) (r : PeerList ⊎ Error)
    → Extends raws [] [] r
    → parts_of value ≡ raws
    → IsParsed value r
parsed_lem value raws (inr err) h e = tt
parsed_lem value raws (inl (ids, addrs)) (p, (new, f, listed, kept)) e = (
  p,
  subst (λ l. Lists (parts_of value) l addrs) (sym f)
      (subst (λ l. Lists l new addrs) (sym e) listed),
)

empty-IsPeerList : IsPeerList [] []
unfolding lookup
empty-IsPeerList = record { distinct = tt; known = λ id h. absurd h; only = λ id h. refl }

-- Whatever list of peers parsePeers accepts, its ids are those that the text names, in its order: none
-- for a blank text, and else one for each part between commas, the text before the part's first equals
-- sign without space around it. The map of the addresses has for each of the ids the text behind the
-- equals sign, without space around it, and nothing for any other id. The ids are distinct, and no id
-- and no address is empty.
pub parse_peers-IsParsed : (value : String) → IsParsed value (parse_peers value)
unfolding parse_peers
parse_peers-IsParsed value = elim (Bool-cases (str_eq (trim_space value) "")) [
  | inl blank ↦ rw blank (empty-IsPeerList, rw blank tt)
  | inr listed ↦ rw listed (
      parsed_lem value (split value b',') (parse_loop (split value b',') [] [])
        (parse_loop-Extends (split value b',') [] [] empty-IsPeerList) (rw listed refl))
]
