-- ===== src/Middleware/Chain.antt =====
-- The chain of cmd/server/main.go, from the outside to the handler: subnet, decryption, gzip,
-- signature. The request logger, which only observes (Middleware/Logger), is left out.
use metrics_alerting_service.Prelude.{
  String, ◌≡◌, refl, ap, ◌∙◌, Bool, true, false, Option, none, some, List, if◌then◌else◌, sym,
  subst,
}
use metrics_alerting_service.Model.{Int64}
use metrics_alerting_service.Errors.{Error, Result, ok}
use metrics_alerting_service.Http.{Request, Op, Handler, Net}
use metrics_alerting_service.Agent.Sender.{
  Outgoing, Sender, Client, outgoing, header_value, header-real_ip, header-encrypted,
  header-encoding, header-hash,
}
use metrics_alerting_service.Middleware.Subnet.{trusted_subnet, allowed}
use metrics_alerting_service.Middleware.Encryption.{
  encryption, encryption-marked, encryption-unmarked,
}
use metrics_alerting_service.Middleware.Gzip.{Codec, gzip, gzip-state}
use metrics_alerting_service.Middleware.Signature.{Buffer, Hmac, compute, signature}
use metrics_alerting_service.Middleware.Signature.Response.{signature-state}

-- The request that the server sees when the agent sends `req`.
abbrev pub received : {B : Type 0} → Outgoing B → String → Int64 → Request B
received req remote_addr now = record {
  url_param = λ p. "";
  header = header_value req.headers;
  body = ok req.content;
  remote_addr = remote_addr;
  now = now;
}

module _ {Ip Subnet : Type 0} (parse_ip : String → Option Ip) (contains : Subnet → Ip → Bool) where
  abbrev pub IsTrusted : Option Subnet → String → Type 0
  IsTrusted none ip_str = Unit
  IsTrusted (some subnet) ip_str = allowed parse_ip contains subnet ip_str ≡ true

module _ {Priv B : Type 0} (decrypt : Priv → B → Result B) where
  -- The content that the agent sends decrypts to `gz` with the server's key, or is `gz` if the agent
  -- has no key.
  abbrev pub Opens : Option Priv → Bool → B → B → Type 0
  Opens sk false content gz = content ≡ gz
  Opens none true content gz = ⊥
  Opens (some sk) true content gz = decrypt sk content ≡ ok gz

module _ {Ip Subnet Priv B Z S : Type 0} (net : Net B) (parse_ip : String → Option Ip)
    (contains : Subnet → Ip → Bool) (decrypt : Priv → B → Result B) (codec : Codec B Z)
    (message : Error → String) (buf : Buffer B) (hmac : Hmac B) where
  unfoldable pub server_chain : Option Subnet → Option Priv → String → Handler B S → Handler B S
  server_chain subnet sk key next =
      trusted_subnet parse_ip contains net subnet
        (encryption net decrypt sk (gzip codec message net (signature buf hmac net key next)))

  trusted_subnet-trusted :
      (subnet : Option Subnet) (next : Handler B S) (r : Request B) (s : S)
      → IsTrusted parse_ip contains subnet (r.header "X-Real-IP")
      → trusted_subnet parse_ip contains net subnet next r s ≡ next r s
  unfolding trusted_subnet
  trusted_subnet-trusted none next r s t = refl
  trusted_subnet-trusted (some subnet) next r s t = rw t

  encryption-Opens :
      (sk : Option Priv) (encrypted : Bool) (next : Handler B S) (r : Request B) (content gz : B)
      (s : S)
      → r.body ≡ ok content
      → r.header "X-Encrypted" ≡ (if encrypted then "1" else "")
      → Opens decrypt sk encrypted content gz
      → encryption net decrypt sk next r s ≡ next (record r { body = ok gz }) s
  encryption-Opens sk false next r content gz s b h o =
      encryption-unmarked net decrypt sk next r s h
      ∙ ap (λ t. next (record r { body = t }) s) (b ∙ ap ok o)
  encryption-Opens none true next r content gz s b h o = absurd o
  encryption-Opens (some sk) true next r content gz s b h o =
      encryption-marked net decrypt sk next r content gz s b h o

  -- A batch that the agent has encoded as `json`, compressed to `gz` and perhaps encrypted to
  -- `content` goes through the whole chain, if the agent's address is trusted, both sides have the
  -- same signing key, and the server's private key and decompressor undo what the agent did. The
  -- state is then as the handler leaves it on the request with the body `json`.
  pub server_chain-delivers :
      {Pub : Type 0} (client : Client Pub B S) (sender : Sender Pub) (subnet : Option Subnet)
      (sk : Option Priv) (next : Handler B S) (json gz content : B) (encrypted : Bool)
      (remote_addr : String) (now : Int64) (s : S)
      → IsTrusted parse_ip contains subnet sender.real_ip
      → Opens decrypt sk encrypted content gz
      → codec.new_reader (ok gz) ≡ ok (ok json)
      → (server_chain subnet sk sender.key next
          (received (outgoing client buf hmac sender json content encrypted) remote_addr now)
          s).1
        ≡ (next
            (record (received
              (outgoing client buf hmac sender json content encrypted)
              remote_addr
              now) { body = ok json })
            s).1
  unfolding server_chain outgoing
  server_chain-delivers client sender subnet sk next json gz content encrypted remote_addr now s t o
        n =
      let r = received (outgoing client buf hmac sender json content encrypted) remote_addr now in
      let sum = compute buf hmac json sender.key in
      let signing = signature buf hmac net sender.key next in
      let unpacking = gzip codec message net signing in
      let result : List (Op B) × S → S = λ x. x.1 in
      ap result (
        trusted_subnet-trusted subnet (encryption net decrypt sk unpacking) r s (
          subst (IsTrusted parse_ip contains subnet)
            (sym (header-real_ip sender.real_ip sender.key sum encrypted)) t))
      ∙ ap result (
          encryption-Opens sk encrypted unpacking r content gz s refl
            (header-encrypted sender.real_ip sender.key sum encrypted) o)
      ∙ gzip-state codec message net signing (record r { body = ok gz }) (ok json) s n
          (header-encoding sender.real_ip sender.key sum encrypted)
      ∙ signature-state buf hmac net sender.key next (record r { body = ok json }) json s refl
          (header-hash sender.real_ip sender.key sum encrypted)
