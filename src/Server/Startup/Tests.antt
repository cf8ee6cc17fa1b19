-- ===== src/Server/Startup/Tests.antt =====
-- A server with a trusted subnet, with gRPC and without a key.
use metrics_alerting_service.Prelude.{ℕ, ◌≡◌, refl, true, none, some}
use metrics_alerting_service.Errors.{ok}
use metrics_alerting_service.Config.{pos}
use metrics_alerting_service.Config.Server.{ServerConfig}
use metrics_alerting_service.Server.Startup.{
  Libs, Parts, startup, when_set, set_value, grpc_part, secure_grpc, with_grpc, with_creds,
  listening,
}
use metrics_alerting_service.Server.Startup.Guarded.{IsWhenSet, IsGrpcFor, startup-IsGuarded}

abbrev libs : Libs ℕ ℕ ℕ ℕ
libs = record {
  load_private_key = λ path. ok 1;
  parse_cidr = λ text. ok 2;
  server_tls = λ cert key. ok 3;
  listen = λ addr. ok 4;
}

abbrev cfg : ServerConfig
cfg = record {
  address = "localhost:8080";
  store_interval = pos 300;
  file_storage_path = "db.json";
  restore = true;
  database_dsn = "";
  key = "";
  audit_file = "";
  audit_url = "";
  pprof_addr = "";
  crypto_key = "";
  shutdown_timeout = pos 5;
  trusted_subnet = "10.0.0.0/8";
  grpc_address = "localhost:3200";
  grpc_cert_file = "server.crt";
  grpc_key_file = "server.key";
}

abbrev parts : Parts ℕ ℕ ℕ ℕ
parts = record {
  private_key = none;
  trusted_net = some 2;
  grpc_server = some (record { creds = 3; listener = 4; interceptor = some 2 });
}

started : startup libs cfg ≡ ok parts
unfolding startup when_set set_value grpc_part secure_grpc with_grpc with_creds listening
started = refl

startup-IsGuarded_example :
    (IsWhenSet "" libs.load_private_key parts.private_key)
    × (IsWhenSet "10.0.0.0/8" libs.parse_cidr parts.trusted_net)
    × (IsGrpcFor libs cfg parts.trusted_net parts.grpc_server)
startup-IsGuarded_example = startup-IsGuarded libs cfg parts started
