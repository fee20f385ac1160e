-- ===== src/Http/Api/Refusals.antt =====
-- client/http.go: the requests that handleKV turns down before anything is proposed.
use Prim.Native.String.{◌++◌}
use rv_key_value.Base.{
  ◌≤◌, ◌<◌, ◌≡◌, ◌≢◌, ◌⊎◌, refl, ap, ◌∙◌, arith, String, true, false, some, ltb, lt→ltb, length,
  str_eq, eq_iff, ret,
}
use rv_key_value.Base.Texts.{trim_prefix, contains_char, trim_prefix-append}
use rv_key_value.Raft.Types.{Bytes, Error, StableStore}
use rv_key_value.Raft.Membership.{MembershipJson}
use rv_key_value.Raft.Node.{RaftNode}
use rv_key_value.Store.Command.{KvJson}
use rv_key_value.Store.Database.{Database}
use rv_key_value.Store.Machine.{KvStateMachine}
use rv_key_value.Http.Message.{
  Request, Response, text, http_error, method_not_allowed, read_limited,
}
use rv_key_value.Http.Forward.{HttpClient}
use rv_key_value.Http.Proposing.{Api, answered}
use rv_key_value.Http.Api.{max_kv_value_bytes, is_bad_name, ReadRun, handle_put, handle_kv}

-- A key of a request: it is not empty, and has no slash.
pub record IsKey (key : String) : Type 0 where
  pub given : key ≢ ""
  pub one_segment : contains_char key b'/' ≡ false

-- Why handleKV turns down a request for what stands behind "/kv/" in its path, and its answer.
pub data Refuses (r : Request) (key : String) : Response → Type 0 where
  no_key :
      (key ≡ "") ⊎ (contains_char key b'/' ≡ true)
      → Refuses r key (http_error (text "invalid key") 400)
  other_method :
      IsKey key
      → r.method ≢ "GET"
      → r.method ≢ "PUT"
      → r.method ≢ "DELETE"
      → Refuses r key (method_not_allowed "GET, PUT, DELETE")
  large :
      IsKey key
      → r.method ≡ "PUT"
      → max_kv_value_bytes < length r.body.content
      → Refuses r key (http_error (text "request body too large") 413)
  unreadable :
      IsKey key
      → r.method ≡ "PUT"
      → length r.body.content ≤ max_kv_value_bytes
      → (err : Error) → r.body.broken ≡ some err
      → Refuses r key (http_error (text "read body") 400)

bad_lem : (key : String) → (key ≡ "") ⊎ (contains_char key b'/' ≡ true) → is_bad_name key ≡ true
bad_lem key h = ground (arith, h, eq_iff key "")

good_lem : (key : String) → IsKey key → is_bad_name key ≡ false
good_lem key k = ground (arith, k, eq_iff key "")

ne_lem : (a b : String) → a ≢ b → str_eq a b ≡ false
ne_lem a b h = ground (arith, eq_iff a b)

key_lem : (path key : String) → path ≡ "/kv/" ++ key → trim_prefix path "/kv/" ≡ key
key_lem path key e = ap (λ p. trim_prefix p "/kv/") e ∙ trim_prefix-append "/kv/" key

not_large :
    (content : Bytes)
    → length content ≤ max_kv_value_bytes
    → ltb max_kv_value_bytes (length content) ≡ false
not_large content h = ground arith

module _ {D B : Type 0} ⦃stable : StableStore D⦄ ⦃members : MembershipJson⦄ ⦃database : Database B⦄
    ⦃json : KvJson⦄ ⦃http : HttpClient⦄ (run : ReadRun D B) (api : Api) (r : Request)
    (n : RaftNode D) (m : KvStateMachine B) where
  -- A request for "/kv/" and a key is answered at once, and changes nothing: with 400 for a key that
  -- is empty or has a slash; with 405 for a method that is not GET, PUT or DELETE; for a PUT with 413
  -- for a body of more than 1048576 bytes, and with 400 for one that is no longer but whose reading
  -- fails.
  pub handle_kv-Refuses :
      (key : String) (response : Response)
      → r.path ≡ "/kv/" ++ key
      → Refuses r key response
      → handle_kv run api r n m ≡ ret (answered n m response)
  unfolding handle_kv handle_put read_limited
  handle_kv-Refuses key response path (no_key bad) =
      rw (key_lem r.path key path) (rw (bad_lem key bad) refl)
  handle_kv-Refuses key response path (other_method k g p d) = rw (key_lem r.path key path) (
      rw (good_lem key k) (
        rw (ne_lem r.method "GET" g)
          (rw (ne_lem r.method "PUT" p) (rw (ne_lem r.method "DELETE" d) refl))))
  handle_kv-Refuses key response path (large k p big) = rw (key_lem r.path key path) (
      rw (good_lem key k) (
        rw (ap (λ x. str_eq x "GET") p)
          (rw (ap (λ x. str_eq x "PUT") p) (rw (lt→ltb _ _ big, handle_put) refl))))
  handle_kv-Refuses key response path (unreadable k p small err broken) =
      rw (key_lem r.path key path) (
        rw (good_lem key k) (
          rw (ap (λ x. str_eq x "GET") p) (
            rw (ap (λ x. str_eq x "PUT") p)
              (rw (not_large r.body.content small, handle_put) (rw broken refl)))))
