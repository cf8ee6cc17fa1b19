-- ===== src/Middleware/Tests.antt =====
-- The middleware over bodies of bytes: a cipher and a compression that put one byte in front, a
-- signature of the first byte, and one trusted address.
use metrics_alerting_service.Prelude.{
  ℕ, String, ◌≡◌, refl, Bool, true, false, Option, none, some, List, [], ◌∷◌, ◌++◌, ◌==◌, ◌⊎◌,
  if◌then◌else◌,
}
use metrics_alerting_service.Errors.{Result, ok, err, Bytes, malformed}
use metrics_alerting_service.Http.{Request, Op, set_header, write_header, write, Handler, Net}
use metrics_alerting_service.Agent.Sender.{Sender, Client, outgoing}
use metrics_alerting_service.Middleware.Subnet.{allowed, trusted_subnet, trusted_subnet_safe}
use metrics_alerting_service.Middleware.Gzip.{Codec}
use metrics_alerting_service.Middleware.Signature.{
  Buffer, Hmac, body_after, sent, verify, sign_response,
}
use metrics_alerting_service.Middleware.Signature.Response.{verify-sign_response}
use metrics_alerting_service.Middleware.Chain.{received, server_chain, server_chain-delivers}

abbrev net : Net Bytes
net = record { error = λ text code. write_header code ∷ []; bytes = λ text. [] }

abbrev is_nil : Bytes → Bool
is_nil [] = true
is_nil (b ∷ bs) = false

abbrev buffer : Buffer Bytes
buffer = record { empty = []; append = λ a b. a ++ b; is_empty = is_nil }

abbrev hmac : Hmac Bytes
hmac = record { hmac_sha256 = λ key body. body; hex = λ b. if is_nil b then "00" else "a1" }

abbrev ops : List (Op Bytes)
ops =
    set_header "Content-Type" "text/html"
    ∷ write_header 200
    ∷ write (60 ∷ [])
    ∷ write (62 ∷ [])
    ∷ []

verify-sign_response_example :
    (body_after buffer [] (sign_response buffer hmac "secret" ops) ≡ body_after buffer [] ops)
    × (verify buffer hmac
          (body_after buffer [] (sign_response buffer hmac "secret" ops))
          "secret"
          (sent "HashSHA256" "" (sign_response buffer hmac "secret" ops))
        ≡ true)
unfolding body_after
verify-sign_response_example = verify-sign_response buffer hmac "secret" ops (λ b. refl) is_full
  where
    is_full : is_nil (body_after buffer [] ops) ≡ false
    is_full = refl

abbrev without_first : Bytes → Result Bytes
without_first [] = err malformed
without_first (b ∷ bs) = ok bs

abbrev decrypt : ℕ → Bytes → Result Bytes
decrypt sk b = without_first b

abbrev gunzip : Result Bytes → Result (Result Bytes)
gunzip (err e) = err e
gunzip (ok []) = err malformed
gunzip (ok (b ∷ bs)) = ok (ok bs)

abbrev codec : Codec Bytes ℕ
codec = record {
  new_reader = gunzip;
  new_writer = 0;
  compress = λ b z. (b ∷ [], z);
  finish = λ z. [];
  has_prefix = λ s p. s == p;
  contains = λ s p. s == p;
}

abbrev client : Client ℕ Bytes (List Bytes)
client = record {
  marshal = λ ms. ok (91 ∷ 93 ∷ []);
  gzip = λ b. ok (31 ∷ b);
  encrypt = λ pk b s. (ok (pk ∷ b), s);
  new_request = λ a. none;
  do_request = λ req s. (ok 200, s);
}

abbrev sender : Sender ℕ
sender = record {
  server_addr = "http://localhost:8080";
  key = "secret";
  real_ip = "10.0.0.7";
  pub_key = some 5;
}

-- the address that parses is the one trusted address
abbrev parse_ip : String → Option ℕ
parse_ip text = if text == "10.0.0.7" then some 7 else none

abbrev contains : ℕ → ℕ → Bool
contains subnet ip = true

abbrev first_or_none : Result Bytes → List Bytes
first_or_none (err e) = []
first_or_none (ok b) = b ∷ []

-- a handler that keeps the bodies that it gets
abbrev keep : Handler Bytes (List Bytes)
keep r s = (write_header 200 ∷ [], first_or_none r.body ++ s)

abbrev encrypted_request : Request Bytes
encrypted_request =
    received (outgoing client buffer hmac sender (91 ∷ 93 ∷ []) (5 ∷ 31 ∷ 91 ∷ 93 ∷ []) true)
      "10.0.0.7:40000" 0

server_chain-delivers_example :
    (server_chain net parse_ip contains decrypt codec
      (λ e. "")
      buffer
      hmac
      (some 1)
      (some 9)
      "secret"
      keep
      encrypted_request
      []).1
    ≡ (91 ∷ 93 ∷ []) ∷ []
unfolding allowed
server_chain-delivers_example =
    server_chain-delivers net parse_ip contains decrypt codec (λ e. "") buffer hmac client sender
      (some 1) (some 9) keep (91 ∷ 93 ∷ []) (31 ∷ 91 ∷ 93 ∷ []) (5 ∷ 31 ∷ 91 ∷ 93 ∷ []) true
      "10.0.0.7:40000" 0 [] refl refl refl

abbrev plain_request : Request Bytes
plain_request = record {
  url_param = λ p. "";
  header = λ h. "10.0.0.7";
  body = ok [];
  remote_addr = "10.0.0.7:40000";
  now = 0;
}

trusted_subnet_safe_example :
    ((ip : ℕ) × (parse_ip "10.0.0.7" ≡ some ip)
      × (contains 1 ip ≡ true)
      × (trusted_subnet parse_ip contains net (some 1) keep plain_request []
          ≡ keep plain_request []))
    ⊎ (trusted_subnet parse_ip contains net (some 1) keep plain_request []
        ≡ (net.error "untrusted IP" 403, []))
trusted_subnet_safe_example = trusted_subnet_safe parse_ip contains net 1 keep plain_request []
