-- ===== src/Agent/Sender.antt =====
-- internal/agent/sender.go and `GRPCSender.Send` of grpcsender.go: a batch becomes one request, which
-- is repeated while the failure is temporary. The codecs, the cipher and the client are parameters
-- over the state `S` of the world; log output is left out.
use metrics_alerting_service.Prelude.{
  ℕ, String, ◌≡◌, Bool, true, false, Option, none, some, List, [], ◌∷◌, ◌==◌, leb, if◌then◌else◌,
  or_else, arith, eq_iff,
}
use Prim.Native.String.{◌++◌ as concat}
use metrics_alerting_service.Dict.{Dict, get, put}
use metrics_alerting_service.Model.{Metrics}
use metrics_alerting_service.Errors.{
  Error, Result, ok, err, url_error, server_unavailable, request_rejected,
}
use metrics_alerting_service.Retry.{retry}
use metrics_alerting_service.Middleware.Signature.{Buffer, Hmac, compute}

-- `isRetriableHTTPError`
unfoldable pub is_retriable_http_error : Error → Bool
is_retriable_http_error url_error = true
is_retriable_http_error server_unavailable = true
is_retriable_http_error e = false

pub record Sender (Pub : Type 0) : Type 0 where
  pub server_addr : String
  pub key : String
  pub real_ip : String
  pub pub_key : Option Pub

-- The request that goes to the client.
pub record Outgoing (B : Type 0) : Type 0 where
  pub endpoint : String
  pub headers : Dict String
  pub content : B

-- json.Marshal, compress/gzip, crypto.Encrypt, http.NewRequestWithContext (an error, if the address
-- is bad), and client.Do (the status of the answer).
pub record Client (Pub B S : Type 0) : Type 0 where
  pub marshal : List Metrics → Result B
  pub gzip : B → Result B
  pub encrypt : Pub → B → S → Result B × S
  pub new_request : String → Option Error
  pub do_request : Outgoing B → S → Result ℕ × S

-- `req.Header.Set`, under the test that the value is there
set_unless_empty : String → String → String → Dict String → Dict String
set_unless_empty test k v h = if test == "" then h else put k v h

set_if : Bool → String → String → Dict String → Dict String
set_if b k v h = if b then put k v h else h

unfoldable pub request_headers : String → String → String → Bool → Dict String
unfolding set_unless_empty set_if
request_headers real_ip key sum encrypted = set_unless_empty key "HashSHA256" sum (
    set_if encrypted "X-Encrypted" "1" (
      set_unless_empty real_ip "X-Real-IP" real_ip (
        put "Accept-Encoding" "gzip"
          (put "Content-Encoding" "gzip" (put "Content-Type" "application/json" [])))))

-- what the agent makes of the status
unfoldable pub status_error : ℕ → Option Error
status_error code =
    if leb 500 code
    then some server_unavailable
    else if leb 400 code
    then some request_rejected
    else none

module _ {Pub B S : Type 0} (client : Client Pub B S) (buf : Buffer B) (hmac : Hmac B) where
  answered : Result ℕ × S → Option Error × S
  unfolding status_error
  answered (err e, s) = (some e, s)
  answered (ok code, s) = (status_error code, s)

  -- one attempt: the function that `Send` gives to `retry.Do`
  unfoldable pub attempt : Outgoing B → S → Option Error × S
  unfolding answered
  attempt req s = elim (client.new_request req.endpoint) [
    | none ↦ answered (client.do_request req s)
    | some e ↦ (some e, s)
  ]

  unfoldable pub outgoing : Sender Pub → B → B → Bool → Outgoing B
  unfolding request_headers
  outgoing sender json body encrypted = record {
    endpoint = concat sender.server_addr "/updates/";
    headers =
        request_headers sender.real_ip sender.key (compute buf hmac json sender.key) encrypted;
    content = body;
  }

  module _ (wait : ℕ → S → Bool × S) where
    deliver : Sender Pub → B → B → Bool → S → S
    unfolding outgoing attempt
    deliver sender json body encrypted s =
        (retry (attempt (outgoing sender json body encrypted)) is_retriable_http_error wait s).1

    with_encrypted : Sender Pub → B → Result B × S → S
    unfolding deliver
    with_encrypted sender json (err e, s) = s
    with_encrypted sender json (ok body, s) = deliver sender json body true s

    encrypted_for : Sender Pub → B → B → Option Pub → S → S
    unfolding deliver with_encrypted
    encrypted_for sender json body none s = deliver sender json body false s
    encrypted_for sender json body (some pk) s =
        with_encrypted sender json (client.encrypt pk body s)

    with_compressed : Sender Pub → B → Result B → S → S
    unfolding encrypted_for
    with_compressed sender json (err e) s = s
    with_compressed sender json (ok body) s = encrypted_for sender json body sender.pub_key s

    with_json : Sender Pub → Result B → S → S
    unfolding with_compressed
    with_json sender (err e) s = s
    with_json sender (ok json) s = with_compressed sender json (client.gzip json) s

    -- `Send`
    unfoldable pub send : Sender Pub → List Metrics → S → S
    unfolding with_json
    send sender [] s = s
    send sender (m ∷ ms) s = with_json sender (client.marshal (m ∷ ms)) s

-- `Header.Get` of the request, as the server sees it
unfoldable pub header_value : Dict String → String → String
header_value h k = or_else (get k h) ""

module _ (real_ip key sum : String) (encrypted : Bool) where
  pub header-real_ip :
      header_value (request_headers real_ip key sum encrypted) "X-Real-IP" ≡ real_ip
  unfolding header_value request_headers get put set_unless_empty set_if
  header-real_ip = ground (arith, eq_iff real_ip "")

  pub header-encrypted :
      header_value (request_headers real_ip key sum encrypted) "X-Encrypted"
      ≡ (if encrypted then "1" else "")
  unfolding header_value request_headers get put set_unless_empty set_if
  header-encrypted = ground (arith)

  pub header-encoding :
      header_value (request_headers real_ip key sum encrypted) "Content-Encoding" ≡ "gzip"
  unfolding header_value request_headers get put set_unless_empty set_if
  header-encoding = ground (arith)

  pub header-hash :
      header_value (request_headers real_ip key sum encrypted) "HashSHA256"
      ≡ (if key == "" then "" else sum)
  unfolding header_value request_headers get put set_unless_empty set_if
  header-hash = ground (arith)
