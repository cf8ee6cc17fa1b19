-- ===== src/Middleware/Signature.antt =====
-- internal/hash: the signature of requests and responses. HMAC-SHA256, hex and the bytes of
-- `bytes.Buffer` are parameters. The pool of buffers only reuses memory; the pools of hashers are in
-- Hashers.
pub mod Response
pub mod Hashers
use metrics_alerting_service.Prelude.{
  ℕ, String, ◌≡◌, refl, sym, ap, ◌∙◌, Bool, true, false, Option, none, some, List, [], ◌∷◌, ◌++◌,
  All, ◌==◌, eq_refl, Bool-cases, if_elim, ◌⊎◌, inl, inr, arith, if◌then◌else◌,
}
use metrics_alerting_service.Errors.{Error, Result, ok, err}
use metrics_alerting_service.Http.{
  Request, Op, set_header, del_header, write_header, write, Handler, Net,
}

-- `bytes.Buffer`: its content, and what `Write` makes of it.
pub record Buffer (B : Type 0) : Type 0 where
  pub empty : B
  pub append : B → B → B
  pub is_empty : B → Bool

pub record Hmac (B : Type 0) : Type 0 where
  pub hmac_sha256 : String → B → B
  pub hex : B → String

-- The body that a client gets, after `acc`.
unfoldable pub body_after : {B : Type 0} → Buffer B → B → List (Op B) → B
body_after buf acc [] = acc
body_after buf acc (set_header k v ∷ ops) = body_after buf acc ops
body_after buf acc (del_header k ∷ ops) = body_after buf acc ops
body_after buf acc (write_header code ∷ ops) = body_after buf acc ops
body_after buf acc (write b ∷ ops) = body_after buf (buf.append acc b) ops

-- The value of the header `k` that a client gets: headers go out with the status or the body.
unfoldable pub sent : {B : Type 0} → String → String → List (Op B) → String
sent k v [] = v
sent k v (set_header j u ∷ ops) = sent k (if j == k then u else v) ops
sent k v (del_header j ∷ ops) = sent k (if j == k then "" else v) ops
sent k v (write_header code ∷ ops) = v
sent k v (write b ∷ ops) = v

module _ {B : Type 0} (buf : Buffer B) (hmac : Hmac B) where
  -- `Compute`
  unfoldable pub compute : B → String → String
  compute body key = hmac.hex (hmac.hmac_sha256 key body)

  -- `Verify`
  unfoldable pub verify : B → String → String → Bool
  unfolding compute
  verify body key expected = compute body key == expected

  -- `hashResponseWriter`; `passed` is what went through to the writer below.
  pub record HashWriter : Type 0 where
    pub passed : List (Op B)
    pub body : B
    pub status_code : ℕ
    pub wrote_header : Bool

  new_hash_writer : HashWriter
  new_hash_writer = record {
    passed = [];
    body = buf.empty;
    status_code = 200;
    wrote_header = false;
  }

  hash_op : Op B → HashWriter → HashWriter
  hash_op (set_header k v) w = record w { passed = w.passed ++ set_header k v ∷ [] }
  hash_op (del_header k) w = record w { passed = w.passed ++ del_header k ∷ [] }
  hash_op (write_header code) w = record w { status_code = code; wrote_header = true }
  hash_op (write b) w = record w { body = buf.append w.body b }

  hash_ops : List (Op B) → HashWriter → HashWriter
  unfolding hash_op
  hash_ops [] w = w
  hash_ops (op ∷ ops) w = hash_ops ops (hash_op op w)

  -- the end of the middleware, where the response goes out
  send_signed : String → HashWriter → List (Op B)
  send_signed key w =
      w.passed
      ++ (if buf.is_empty w.body then [] else set_header "HashSHA256" (compute w.body key) ∷ [])
      ++ (if w.wrote_header then write_header w.status_code ∷ [] else [])
      ++ (if buf.is_empty w.body then [] else write w.body ∷ [])

  unfoldable pub sign_response : String → List (Op B) → List (Op B)
  unfolding hash_ops send_signed new_hash_writer
  sign_response key ops = send_signed key (hash_ops ops new_hash_writer)

  module _ {S : Type 0} (net : Net B) where
    signed : String → List (Op B) × S → List (Op B) × S
    unfolding sign_response
    signed key (ops, s) = (sign_response key ops, s)

    check_body : String → String → Result B → Handler B S → Handler B S
    unfolding signed verify
    check_body key received (err e) next r s = (net.error "failed to read body" 500, s)
    check_body key received (ok body) next r s =
        if verify body key received
        then signed key (next (record r { body = ok body }) s)
        else (net.error "hash mismatch" 400, s)

    -- `Middleware`
    unfoldable pub signature : String → Handler B S → Handler B S
    unfolding check_body signed
    signature key next r s =
        if key == ""
        then next r s
        else if r.header "HashSHA256" == ""
        then signed key (next r s)
        else check_body key (r.header "HashSHA256") r.body next r s
