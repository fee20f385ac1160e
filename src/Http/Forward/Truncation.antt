-- ===== src/Http/Forward/Truncation.antt =====
-- client/http.go: what is left of a leader's response when it is forwarded.
use rv_key_value.Base.{
  ℕ, zero, suc, ◌≤◌, ◌≡◌, ◌↔◌, inl, inr, refl, ap, sym, ◌∙◌, arith, String, none, some, List, [],
  ◌∷◌, ltb, length, take, min, length-take, Bool-cases,
}
use rv_key_value.Base.Map.{lookup}
use rv_key_value.Raft.Types.{Bytes}
use rv_key_value.Http.Message.{Body, read_first}
use rv_key_value.Http.Forward.{
  HttpAnswer, HttpClient, LeaderForwarder, ForwardResponse, max_forward_response_bytes, cut_body,
  read_answer, forward,
}

take_all {ℓ} : {A : Type ℓ} (n : ℕ) (xs : List A) → length xs ≤ n → take n xs ≡ xs
take_all zero [] h = refl
take_all zero (x ∷ xs) h = absurd (omega arith)
take_all (suc n) [] h = refl
take_all (suc n) (x ∷ xs) h = ap (λ l. x ∷ l) (take_all n xs (omega arith))

take-take {ℓ} : {A : Type ℓ} (n k : ℕ) (xs : List A) → n ≤ k → take n (take k xs) ≡ take n xs
take-take zero k xs h = refl
take-take (suc n) zero xs h = absurd (omega arith)
take-take (suc n) (suc k) [] h = refl
take-take (suc n) (suc k) (x ∷ xs) h = ap (λ l. x ∷ l) (take-take n k xs (omega arith))

cut_lem : (limit : ℕ) (b : Bytes) → cut_body limit b ≡ take limit b
unfolding cut_body
cut_lem limit b = elim (Bool-cases (ltb limit (length b))) [
  | inl long ↦ rw long refl
  | inr short ↦ rw short (sym (take_all limit b (ground arith)))
]

-- Reading one byte behind the limit and cutting there is taking what the limit allows.
cut_body-read_first :
    (limit : ℕ) (body : Body)
    → body.broken ≡ none
    → (b : Bytes) × (read_first (suc limit) body ≡ inl b)
      × (cut_body limit b ≡ take limit body.content)
unfolding read_first
cut_body-read_first limit body whole = elim (Bool-cases (ltb (length body.content) (suc limit))) [
  | inl short ↦ (body.content, rw short (rw whole refl), cut_lem limit body.content)
  | inr long ↦ (
    take (suc limit) body.content,
    rw long refl,
    cut_lem limit (take (suc limit) body.content)
        ∙ take-take limit (suc limit) body.content (omega arith),
  )
]

-- What is left of a text of bytes is all of it just when it is short enough.
take_iff : (limit : ℕ) (xs : Bytes) → (take limit xs ≡ xs) ↔ (length xs ≤ limit)
take_iff limit xs =
    (λ e. omega (arith, length-take limit xs, ap length e), λ h. take_all limit xs h)

-- A request that reaches the leader comes back with the leader's status and header, and with the
-- first 65536 bytes of its body. The body is the leader's just when that has no more bytes; a value
-- of up to 1048576 bytes, which a node accepts, can lose its end. The leader's address is known and
-- parsed, and its body is read without an error.
pub forward-HttpAnswer :
    ⦃http : HttpClient⦄ (f : LeaderForwarder) (leader_id method path addr target : String)
    (body : Bytes) (answer : HttpAnswer)
    → lookup leader_id f.http_addrs ≡ some addr
    → http.resolve addr path ≡ inl target
    → http.exchange method target body ≡ inl answer
    → answer.body.broken ≡ none
    → (response : ForwardResponse) × (forward f leader_id method path body ≡ inl response)
      × (response.status_code ≡ answer.status)
      × (response.header ≡ answer.header)
      × (response.body ≡ take max_forward_response_bytes answer.body.content)
      × (length response.body ≡ min max_forward_response_bytes (length answer.body.content))
      × ((response.body ≡ answer.body.content)
          ↔ (length answer.body.content ≤ max_forward_response_bytes))
unfolding forward read_answer
forward-HttpAnswer f leader_id method path addr target body answer known parsed sent whole =
    let content = answer.body.content in
    let (b, read, cut) = cut_body-read_first max_forward_response_bytes answer.body whole in
    (
      record {
        status_code = answer.status;
        header = answer.header;
        body = take max_forward_response_bytes content;
      },
      rw (known, forward) (rw parsed (rw sent (rw (read, read_answer) (rw cut refl)))),
      refl,
      refl,
      refl,
      length-take max_forward_response_bytes content,
      take_iff max_forward_response_bytes content,
    )
