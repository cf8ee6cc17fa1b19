-- ===== src/Server/Startup.antt =====
-- cmd/server/main.go between the storage and the servers: the private key, the trusted subnet, and the
-- server of gRPC with its credentials and its interceptors. The libraries are parameters; what
-- `log.Fatal` ends is an error here.
pub mod Guarded
mod Tests
use metrics_alerting_service.Prelude.{String, Bool, Option, none, some, ◌||◌, ◌==◌, if◌then◌else◌}
use metrics_alerting_service.Errors.{Error, other, Result, ok, err, ◌>>=◌}
use metrics_alerting_service.Config.Server.{ServerConfig}

-- `crypto.LoadPrivateKey`, `net.ParseCIDR`, `credentials.NewServerTLSFromFile` and `net.Listen`
pub record Libs (Priv Subnet Creds Listener : Type 0) : Type 0 where
  pub load_private_key : String → Result Priv
  pub parse_cidr : String → Result Subnet
  pub server_tls : String → String → Result Creds
  pub listen : String → Result Listener

-- `grpcSrv` with its listener; `interceptor` is the subnet of the interceptor, if there is one
pub record GrpcServer (Subnet Creds Listener : Type 0) : Type 0 where
  pub creds : Creds
  pub listener : Listener
  pub interceptor : Option Subnet

pub record Parts (Priv Subnet Creds Listener : Type 0) : Type 0 where
  pub private_key : Option Priv
  pub trusted_net : Option Subnet
  pub grpc_server : Option (GrpcServer Subnet Creds Listener)

unfoldable pub set_value : {A : Type 0} → Result A → Result (Option A)
set_value (ok a) = ok (some a)
set_value (err e) = err e

-- `if s != "" { … }` around a call that may fail
unfoldable pub when_set : {A : Type 0} → String → (String → Result A) → Result (Option A)
when_set s f = if s == "" then ok none else set_value (f s)

module _ {Priv Subnet Creds Listener : Type 0} (libs : Libs Priv Subnet Creds Listener) where
  unfoldable pub listening :
      Option Subnet → Creds → Result Listener → Result (Option (GrpcServer Subnet Creds Listener))
  listening trusted creds (ok lis) =
      ok (some (record { creds = creds; listener = lis; interceptor = trusted }))
  listening trusted creds (err e) = err e

  unfoldable pub with_creds :
      ServerConfig
      → Option Subnet
      → Result Creds
      → Result (Option (GrpcServer Subnet Creds Listener))
  with_creds cfg trusted (ok creds) = listening trusted creds (libs.listen cfg.grpc_address)
  with_creds cfg trusted (err e) = err e

  unfoldable pub secure_grpc :
      ServerConfig → Option Subnet → Result (Option (GrpcServer Subnet Creds Listener))
  secure_grpc cfg trusted =
      if cfg.grpc_cert_file == "" || (cfg.grpc_key_file == "")
      then err (other "gRPC requires TLS")
      else with_creds cfg trusted (libs.server_tls cfg.grpc_cert_file cfg.grpc_key_file)

  unfoldable pub grpc_part :
      ServerConfig → Option Subnet → Result (Option (GrpcServer Subnet Creds Listener))
  grpc_part cfg trusted = if cfg.grpc_address == "" then ok none else secure_grpc cfg trusted

  unfoldable pub with_grpc :
      Option Priv
      → Option Subnet
      → Result (Option (GrpcServer Subnet Creds Listener))
      → Result (Parts Priv Subnet Creds Listener)
  with_grpc sk trusted (ok g) =
      ok (record { private_key = sk; trusted_net = trusted; grpc_server = g })
  with_grpc sk trusted (err e) = err e

  unfoldable pub startup : ServerConfig → Result (Parts Priv Subnet Creds Listener)
  startup cfg = when_set cfg.crypto_key libs.load_private_key >>= (λ sk.
      when_set cfg.trusted_subnet libs.parse_cidr
      >>= (λ trusted. with_grpc sk trusted (grpc_part cfg trusted)))
