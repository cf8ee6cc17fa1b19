-- ===== src/Agent/Setup/Chosen.antt =====
-- The sender that the agent uses is the one that its configuration asks for.
use mathlib.Core.Bool.{true≢false}
use Prim.Native.String.{◌++◌ as concat}
use metrics_alerting_service.Prelude.{
  String, ◌≡◌, ◌≢◌, refl, sym, ap, subst, ◌∙◌, Bool, true, false, Option, none, some, ◌==◌, eq_iff,
  if◌then◌else◌, ◌⊎◌, inl, inr,
}
use metrics_alerting_service.Errors.{Result, ok, err, >>=-eq-ok}
use metrics_alerting_service.Config.Agent.{AgentConfig}
use metrics_alerting_service.Agent.Setup.{
  Net, Transport, http, grpc, outbound_ip, ip_target, key_of, load_key, connected, dialed,
  over_grpc, over_http, chosen, setup,
}

not_empty : (s : String) → (s == "") ≡ false → s ≢ ""
not_empty s h e = absurd (true≢false (sym ((eq_iff s "").1 e) ∙ h))

if-ok :
    {A : Type 0} (b : Bool) (x : A) (y : Result A) (t : A)
    → (if b then ok x else y) ≡ ok t
    → ((b ≡ true) × (x ≡ t)) ⊎ ((b ≡ false) × (y ≡ ok t))
if-ok true x y t h = inl (refl, cc)
if-ok false x y t h = inr (refl, h)

module _ {Pub Creds Conn : Type 0} (net : Net Pub Creds Conn) where
  -- the sender that a configuration asks for
  pub data IsFor (cfg : AgentConfig) : Transport Pub Conn → Type 0 where
    plain :
        cfg.grpc_address ≡ ""
        → cfg.crypto_key ≡ ""
        → IsFor cfg (
            http (record {
              server_addr = concat "http://" cfg.address;
              key = cfg.key;
              real_ip = outbound_ip net cfg.address;
              pub_key = none;
            }))
    encrypted :
        (k : Pub)
        → cfg.grpc_address ≡ ""
        → cfg.crypto_key ≢ ""
        → net.load_public_key cfg.crypto_key ≡ ok k
        → IsFor cfg (
            http (record {
              server_addr = concat "http://" cfg.address;
              key = cfg.key;
              real_ip = outbound_ip net cfg.address;
              pub_key = some k;
            }))
    over_tls :
        (creds : Creds) (conn : Conn)
        → cfg.grpc_address ≢ ""
        → cfg.grpc_ca_cert ≢ ""
        → net.client_tls cfg.grpc_ca_cert ≡ ok creds
        → net.new_client cfg.grpc_address creds ≡ ok conn
        → IsFor cfg (grpc conn (outbound_ip net cfg.grpc_address))

  key_of-ok :
      (r : Result Pub) (key : Option Pub)
      → key_of net r ≡ ok key
      → (k : Pub) × (r ≡ ok k) × (some k ≡ key)
  unfolding key_of
  key_of-ok (ok k) key h = (k, refl, cc)
  key_of-ok (err e) key h = cc

  connected-ok :
      (ip : String) (r : Result Conn) (t : Transport Pub Conn)
      → connected net ip r ≡ ok t
      → (conn : Conn) × (r ≡ ok conn) × (grpc conn ip ≡ t)
  unfolding connected
  connected-ok ip (ok conn) t h = (conn, refl, cc)
  connected-ok ip (err e) t h = cc

  dialed-ok :
      (cfg : AgentConfig) (ip : String) (r : Result Creds) (t : Transport Pub Conn)
      → dialed net cfg ip r ≡ ok t
      → (creds : Creds) × (r ≡ ok creds)
        × (connected net ip (net.new_client cfg.grpc_address creds) ≡ ok t)
  unfolding dialed
  dialed-ok cfg ip (ok creds) t h = (creds, refl, h)
  dialed-ok cfg ip (err e) t h = cc

  over_grpc-ok :
      (cfg : AgentConfig) (ip : String) (t : Transport Pub Conn) (b : Bool)
      (e : Result (Transport Pub Conn))
      → (cfg.grpc_ca_cert == "") ≡ b
      → (if b then e else dialed net cfg ip (net.client_tls cfg.grpc_ca_cert)) ≡ ok t
      → ((e ≡ ok t) × (b ≡ true))
        ⊎ ((cfg.grpc_ca_cert ≢ "") × (dialed net cfg ip (net.client_tls cfg.grpc_ca_cert) ≡ ok t))
  over_grpc-ok cfg ip t true e s h = inl (h, refl)
  over_grpc-ok cfg ip t false e s h = inr (not_empty cfg.grpc_ca_cert s, h)

  grpc-IsFor :
      (cfg : AgentConfig) (t : Transport Pub Conn)
      → cfg.grpc_address ≢ ""
      → over_grpc net cfg (outbound_ip net cfg.grpc_address) ≡ ok t
      → IsFor cfg t
  unfolding over_grpc
  grpc-IsFor cfg t g h =
      elim (over_grpc-ok cfg (outbound_ip net cfg.grpc_address) t (cfg.grpc_ca_cert == "") _ refl
        h) [
          | inl (e, _) ↦ cc
          | inr (n, d) ↦
              let (creds, c, d') =
                dialed-ok cfg (outbound_ip net cfg.grpc_address) (net.client_tls cfg.grpc_ca_cert) t
                  d in
              let (conn, k, same) =
                connected-ok (outbound_ip net cfg.grpc_address)
                  (net.new_client cfg.grpc_address creds) t d' in
              subst (IsFor cfg) same (over_tls creds conn g n c k)
        ]

  http-IsFor :
      (cfg : AgentConfig) (key : Option Pub)
      → cfg.grpc_address ≡ ""
      → load_key net cfg ≡ ok key
      → IsFor cfg (over_http net cfg (outbound_ip net cfg.address) key)
  unfolding load_key over_http
  http-IsFor cfg key g h =
      elim (if-ok (cfg.crypto_key == "") none (key_of net (net.load_public_key cfg.crypto_key)) key
        h) [
          | inl (c, e) ↦
              subst (λ o. IsFor cfg (over_http net cfg (outbound_ip net cfg.address) o)) e
                (plain g ((eq_iff cfg.crypto_key "").0 c))
          | inr (n, l) ↦
              let (k, e, same) = key_of-ok (net.load_public_key cfg.crypto_key) key l in
              subst (λ o. IsFor cfg (over_http net cfg (outbound_ip net cfg.address) o)) same
                (encrypted k g (not_empty cfg.crypto_key n) e)
        ]

  target :
      (cfg : AgentConfig) (b : Bool)
      → (cfg.grpc_address == "") ≡ b
      → ip_target net cfg ≡ (if b then cfg.address else cfg.grpc_address)
  unfolding ip_target
  target cfg b e = ap (λ c. if c then cfg.address else cfg.grpc_address) e

  -- When the agent comes to its loop, its sender is the one that the configuration asks for: with an
  -- address of gRPC a connection under the credentials of a CA that is given, and otherwise HTTP, which
  -- encrypts with the key that was loaded just if the path of a key is given; and it tells the server the
  -- address that the agent has towards that node.
  setup-IsFor : (cfg : AgentConfig) (t : Transport Pub Conn) → setup net cfg ≡ ok t → IsFor cfg t
  unfolding setup chosen
  setup-IsFor cfg t h =
      let (key, l, c) = >>=-eq-ok (load_key net cfg) (chosen net cfg) h in
      elim (if-ok (cfg.grpc_address == "")
        (over_http net cfg (outbound_ip net (ip_target net cfg)) key)
        (over_grpc net cfg (outbound_ip net (ip_target net cfg))) t c) [
          | inl (b, e) ↦ subst (IsFor cfg) e (
              subst (λ a. IsFor cfg (over_http net cfg (outbound_ip net a) key))
                (sym (target cfg true b)) (http-IsFor cfg key ((eq_iff cfg.grpc_address "").0 b) l))
          | inr (b, e) ↦
              grpc-IsFor cfg t (not_empty cfg.grpc_address b)
                (ap (λ a. over_grpc net cfg (outbound_ip net a)) (sym (target cfg false b)) ∙ e)
        ]
