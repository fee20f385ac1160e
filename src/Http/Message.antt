-- ===== src/Http/Message.antt =====
-- What net/http hands to the handlers of client/http.go, and what they write.
use rv_key_value.Base.{
  ℕ, String, Option, none, some, List, [], ◌∷◌, ltb, length, take, if◌then◌else◌,
}
use rv_key_value.Base.{◌⊎◌, inl, inr}
use rv_key_value.Raft.Types.{Bytes, Error}

-- A body that is read: the bytes up to its end, or up to the error that ends it.
pub record Body : Type 0 where
  pub content : Bytes
  pub broken : Option Error

pub record Request : Type 0 where
  pub method : String
  pub path : String
  pub body : Body

-- The body of a response: the text of http.Error, the text of an error, a value, or the document of
-- the members with the leader.
pub data Payload : Type 0 where
  empty : Payload
  text : String → Payload
  error_text : Error → Payload
  raw : Bytes → Payload
  member_list : String → List String → Payload

pub record Response : Type 0 where
  pub status : ℕ
  pub header : List (String × String)
  pub payload : Payload

-- http.Error
abbrev pub http_error : Payload → ℕ → Response
http_error payload status = record { status = status; header = []; payload = payload }

abbrev pub method_not_allowed : String → Response
method_not_allowed allow = record {
  status = 405;
  header = ("Allow", allow) ∷ [];
  payload = text "method not allowed";
}

abbrev pub no_content : Response
no_content = record { status = 204; header = []; payload = empty }

-- How io.ReadAll of an http.MaxBytesReader ends.
pub data ReadResult : Type 0 where
  complete : Bytes → ReadResult
  too_large : ReadResult
  read_failed : ReadResult

-- The reader fails as soon as it meets a byte behind the limit.
unfoldable pub read_limited : ℕ → Body → ReadResult
read_limited limit body =
    if ltb limit (length body.content)
    then too_large
    else elim body.broken [ some err ↦ read_failed | none ↦ complete body.content ]

-- io.ReadAll of an io.LimitReader: at the limit it stops without an error.
unfoldable pub read_first : ℕ → Body → Bytes ⊎ Error
read_first limit body =
    if ltb (length body.content) limit
    then elim body.broken [ some err ↦ inr err | none ↦ inl body.content ]
    else inl (take limit body.content)
