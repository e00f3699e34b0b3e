-- ===== src/Service/LocalApi/Answers.antt =====
-- api.py: to whom the local interface gives a result, and for what.
use printer_hmi_remote.Prelude.{
  ℕ, ◌≤◌, ◌≡◌, refl, true, Option, none, some, arith, Bool-cases, inl, inr, length, ltb, not, ◌==◌,
  ◌||◌, other, Result, ok, err, need, need-eq-ok, raise_if-eq-ok, >>=-eq-ok, str_eq,
}
use printer_hmi_remote.Json.{Value, bool, obj, Fields, get, lookup, as_dict, is_one}
use printer_hmi_remote.Codec.Base64.{Bytes}
use printer_hmi_remote.Platform.{Platform}
use printer_hmi_remote.Service.Store.{Store, Tick}
use printer_hmi_remote.Service.LocalApi.{
  Api, dispatch, ends_line, is_overrun, max_request_bytes, handle_request, handle_client, response,
  require_same_user,
}

require_same_user-ok :
    (own : ℕ) (peer : Option ℕ) → require_same_user own peer ≡ ok tt → peer ≡ some own
unfolding require_same_user
require_same_user-ok own none h = cc
require_same_user-ok own (some uid) h = ground arith

-- What a request that is let through to the methods is like.
pub record IsRequest (p : Platform) (own : ℕ) (peer : Option ℕ) (raw : Bytes) : Type 0 where
  pub request : Fields
  pub is_own : peer ≡ some own
  pub has_bytes : 1 ≤ length raw
  pub is_short : length raw ≤ 16384
  pub is_line : ends_line raw ≡ true
  pub is_read : p.json_loads raw ≡ some (obj request)
  pub has_version : is_one (get "protocol_version" request) ≡ true

as_dict-some : (v : Value) (fs : Fields) → as_dict v ≡ some fs → v ≡ obj fs
as_dict-some v fs h = ground arith

dispatch-IsRequest :
    (api : Api) (t : Tick) (s : Store) (v result : Value)
    → dispatch api t s v ≡ ok result
    → (fs : Fields) × (v ≡ obj fs) × (is_one (get "protocol_version" fs) ≡ true)
unfolding dispatch
dispatch-IsRequest api t s v result h =
    let (fs, read, h1) = >>=-eq-ok (need (as_dict v) _) _ h in
    (fs, as_dict-some v fs (need-eq-ok _ _ read), ground arith)

module _ (p : Platform) where
  response-ok : (r : Result Value) → get "ok" (response p r) ≡ bool true → (v : Value) × (r ≡ ok v)
  unfolding response lookup
  response-ok (ok v) h = (v, refl)
  response-ok (err (other name)) h = elim (Bool-cases (str_eq name "JSONDecodeError")) [
    | inl same ↦ absurd (ground arith)
    | inr differs ↦ absurd (ground arith)
  ]
  response-ok (err e) h = absurd (ground arith)

  handle_request-IsRequest :
      (api : Api) (t : Tick) (s : Store) (own : ℕ) (peer : Option ℕ) (raw : Bytes) (result : Value)
      → handle_request p api t s own peer raw ≡ ok result
      → IsRequest p own peer raw
  unfolding handle_request
  handle_request-IsRequest api t s own peer raw result h =
      let (u, same, h1) = >>=-eq-ok (require_same_user own peer) _ h in
      let (_, h2) = raise_if-eq-ok (is_overrun raw) _ _ h1 in
      let (some_bytes, h3) = raise_if-eq-ok (length raw == 0) _ _ h2 in
      let (fits, h4) =
        raise_if-eq-ok (ltb max_request_bytes (length raw) || not (ends_line raw)) _ _ h3 in
      let (v, read, h5) = >>=-eq-ok (need (p.json_loads raw) _) _ h4 in
      let (fs, is_obj, version) = dispatch-IsRequest api t s v result h5 in
      record {
        request = fs;
        is_own = require_same_user-ok own peer same;
        has_bytes = ground arith;
        is_short = ground arith;
        is_line = ground arith;
        is_read = rw (← is_obj) (need-eq-ok _ _ read);
        has_version = version;
      }

  -- A response that says that it is one with a result is given to the agent's own user alone, for a line
  -- of 1 to 16384 bytes that ends in a newline and reads as an object with protocol version 1.
  pub handle_client-IsRequest :
      (api : Api) (t : Tick) (s : Store) (own : ℕ) (peer : Option ℕ) (raw : Bytes)
      → get "ok" (handle_client p api t s own peer raw) ≡ bool true
      → IsRequest p own peer raw
  unfolding handle_client
  handle_client-IsRequest api t s own peer raw h =
      let (v, gives) = response-ok (handle_request p api t s own peer raw) h in
      handle_request-IsRequest api t s own peer raw v gives
