-- ===== src/Agent/Setup/Tests.antt =====
-- An agent with an address of gRPC and a CA.
use metrics_alerting_service.Prelude.{ℕ, ◌≡◌, refl}
use metrics_alerting_service.Errors.{ok}
use metrics_alerting_service.Config.{pos}
use metrics_alerting_service.Config.Agent.{AgentConfig}
use metrics_alerting_service.Agent.Setup.{
  Net, grpc, setup, load_key, over_grpc, outbound_ip, chosen, connected, dialed, ip_target,
}

abbrev net : Net ℕ ℕ ℕ
net = record {
  dial_udp = λ addr. ok "10.0.0.7";
  load_public_key = λ path. ok 3;
  client_tls = λ path. ok 4;
  new_client = λ addr creds. ok 5;
}

abbrev cfg : AgentConfig
cfg = record {
  address = "localhost:8080";
  report_interval = pos 10;
  poll_interval = pos 2;
  key = "";
  rate_limit = pos 1;
  crypto_key = "";
  shutdown_timeout = pos 5;
  grpc_address = "localhost:3200";
  grpc_ca_cert = "ca.crt";
}

grpc_chosen : setup net cfg ≡ ok (grpc 5 "10.0.0.7")
unfolding setup load_key over_grpc outbound_ip chosen connected dialed ip_target
grpc_chosen = refl
