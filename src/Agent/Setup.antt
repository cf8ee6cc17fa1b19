-- ===== src/Agent/Setup.antt =====
-- cmd/agent/main.go before its loop, and internal/agent/ip.go: the key, the address of the agent and the
-- way to the server. The file of the key, the sockets and the credentials of TLS are parameters; what
-- `log.Fatal` ends is an error here. Log output and the timers are left out.
pub mod Chosen
mod Tests
use Prim.Native.String.{◌++◌ as concat}
use metrics_alerting_service.Prelude.{
  String, ◌≡◌, ◌≢◌, refl, sym, ◌∙◌, Bool, true, false, Option, none, some, ◌==◌, eq_iff,
  if◌then◌else◌, ◌⊎◌, inl, inr,
}
use metrics_alerting_service.Errors.{Error, other, Result, ok, err, ◌>>=◌}
use metrics_alerting_service.Agent.Sender.{Sender}
use metrics_alerting_service.Config.Agent.{AgentConfig}

-- the local address of a UDP socket towards an address, `crypto.LoadPublicKey`,
-- `credentials.NewClientTLSFromFile` and `grpc.NewClient`
pub record Net (Pub Creds Conn : Type 0) : Type 0 where
  pub dial_udp : String → Result String
  pub load_public_key : String → Result Pub
  pub client_tls : String → Result Creds
  pub new_client : String → Creds → Result Conn

-- the batch sender
pub data Transport (Pub Conn : Type 0) : Type 0 where
  http : Sender Pub → Transport Pub Conn
  grpc : Conn → String → Transport Pub Conn

module _ {Pub Creds Conn : Type 0} (net : Net Pub Creds Conn) where
  -- `OutboundIP`; the error is only logged, and the agent then sends no address
  unfoldable pub outbound_ip : String → String
  outbound_ip addr = elim (net.dial_udp addr) [ ok ip ↦ ip | err e ↦ "" ]

  -- the node towards which the address of the agent is taken
  unfoldable pub ip_target : AgentConfig → String
  ip_target cfg = if cfg.grpc_address == "" then cfg.address else cfg.grpc_address

  unfoldable pub key_of : Result Pub → Result (Option Pub)
  key_of (ok k) = ok (some k)
  key_of (err e) = err e

  unfoldable pub load_key : AgentConfig → Result (Option Pub)
  unfolding key_of
  load_key cfg =
      if cfg.crypto_key == "" then ok none else key_of (net.load_public_key cfg.crypto_key)

  unfoldable pub connected : String → Result Conn → Result (Transport Pub Conn)
  connected ip (ok conn) = ok (grpc conn ip)
  connected ip (err e) = err e

  unfoldable pub dialed : AgentConfig → String → Result Creds → Result (Transport Pub Conn)
  dialed cfg ip (ok creds) = connected ip (net.new_client cfg.grpc_address creds)
  dialed cfg ip (err e) = err e

  -- the branch with an address of gRPC
  unfoldable pub over_grpc : AgentConfig → String → Result (Transport Pub Conn)
  unfolding connected dialed
  over_grpc cfg ip =
      if cfg.grpc_ca_cert == ""
      then err (other "gRPC requires TLS")
      else dialed cfg ip (net.client_tls cfg.grpc_ca_cert)

  unfoldable pub over_http : AgentConfig → String → Option Pub → Transport Pub Conn
  over_http cfg ip key = http (record {
    server_addr = concat "http://" cfg.address;
    key = cfg.key;
    real_ip = ip;
    pub_key = key;
  })

  unfoldable pub chosen : AgentConfig → Option Pub → Result (Transport Pub Conn)
  unfolding over_http ip_target
  chosen cfg key =
      if cfg.grpc_address == ""
      then ok (over_http cfg (outbound_ip (ip_target cfg)) key)
      else over_grpc cfg (outbound_ip (ip_target cfg))

  -- `main` up to the worker pool
  unfoldable pub setup : AgentConfig → Result (Transport Pub Conn)
  unfolding chosen
  setup cfg = load_key cfg >>= chosen cfg
