-- ===== src/Config/Tests.antt =====
-- The theorems of the configuration at concrete inputs.
use metrics_alerting_service.Prelude.{String, ◌≡◌, refl, false, none, some, ◌==◌, if◌then◌else◌}
use metrics_alerting_service.Errors.{Result, ok, err, other}
use metrics_alerting_service.Config.{pos, Os, load_config_file, resolve_config_path, or_default}
use metrics_alerting_service.Config.Agent.{
  AgentConfig, AgentFlags, AgentFileConfig, no_file, defaults, apply_to, apply_env, validate,
  parse_agent_config,
}
use metrics_alerting_service.Config.Agent.Resolve
use metrics_alerting_service.Config.Agent.Resolve.{
  parse_agent_config-IsResolved, parse_agent_config_positive,
}
use metrics_alerting_service.Config.Server
use metrics_alerting_service.Config.Server.{
  ServerConfig, ServerFlags, ServerFileConfig, parse_server_config,
}

-- ADDRESS is set in the environment; every number reads as 7
abbrev pub os : Os
os = record {
  lookup_env = λ name. if name == "ADDRESS" then some "env:1" else none;
  atoi = λ text. some (pos 7);
  parse_bool = λ text. none;
  parse_duration_seconds = λ text. ok (pos 3);
}

abbrev pub agent_flags : AgentFlags
agent_flags = record {
  config = some "agent.json";
  address = some "flag:1";
  report_interval = some (pos 20);
  poll_interval = none;
  key = none;
  rate_limit = none;
  crypto_key = none;
  shutdown_timeout = none;
  grpc_address = none;
  grpc_ca_cert = none;
}

abbrev pub agent_file : AgentFileConfig
agent_file = record {
  address = some "file:1";
  report_interval = some "1s";
  poll_interval = some "3s";
  key = some "secret";
  rate_limit = none;
  crypto_key = none;
  shutdown_timeout = none;
  grpc_address = none;
  grpc_ca_cert = none;
}

abbrev pub read_agent : String → Result AgentFileConfig
read_agent path = ok agent_file

abbrev pub agent_config : AgentConfig
agent_config = record {
  address = "env:1";
  report_interval = pos 20;
  poll_interval = pos 3;
  key = "secret";
  rate_limit = pos 1;
  crypto_key = "";
  shutdown_timeout = pos 5;
  grpc_address = "";
  grpc_ca_cert = "";
}

pub agent_parsed : parse_agent_config os read_agent agent_flags ≡ ok agent_config
unfolding parse_agent_config load_config_file resolve_config_path no_file defaults apply_to
    apply_env validate
agent_parsed = refl

parse_agent_config-IsResolved_example :
    (fc : AgentFileConfig) × (load_config_file read_agent no_file
        (resolve_config_path os (or_default agent_flags.config ""))
      ≡ ok fc)
    × Resolve.IsResolved os fc agent_flags agent_config
parse_agent_config-IsResolved_example =
    parse_agent_config-IsResolved os read_agent agent_flags agent_config agent_parsed

abbrev server_flags : ServerFlags
server_flags = record {
  config = none;
  address = some "flag:1";
  store_interval = some (pos 0);
  file_storage_path = none;
  restore = some false;
  database_dsn = none;
  key = none;
  audit_file = none;
  audit_url = none;
  pprof_addr = none;
  crypto_key = none;
  shutdown_timeout = none;
  trusted_subnet = none;
  grpc_address = none;
  grpc_cert_file = none;
  grpc_key_file = none;
}

-- no path is given, so no file is read
abbrev read_server : String → Result ServerFileConfig
read_server path = err (other "no such file")

abbrev server_config : ServerConfig
server_config = record {
  address = "env:1";
  store_interval = pos 0;
  file_storage_path = "/tmp/metrics-db.json";
  restore = false;
  database_dsn = "";
  key = "";
  audit_file = "";
  audit_url = "";
  pprof_addr = "";
  crypto_key = "";
  shutdown_timeout = pos 5;
  trusted_subnet = "";
  grpc_address = "";
  grpc_cert_file = "";
  grpc_key_file = "";
}

server_parsed : parse_server_config os read_server server_flags ≡ ok server_config
unfolding parse_server_config load_config_file resolve_config_path Server.no_file Server.defaults
    Server.apply_to Server.apply_env Server.validate
server_parsed = refl
