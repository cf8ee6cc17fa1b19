-- ===== src/Config/Agent.antt =====
-- internal/config/agent.go: the configuration of the agent. What the package `flag` made of the
-- command line is a record that holds the value of each flag that was given.
pub mod Resolve
use metrics_alerting_service.Prelude.{String, Bool, true, Option, none, some, if◌then◌else◌}
use metrics_alerting_service.Errors.{Error, other, Result, ok, err, ◌>>=◌}
use metrics_alerting_service.Config.{
  ℤ, pos, Os, is_nonpositive, resolve_config_path, load_config_file, from_file, seconds_from_file,
  from_env, int_from_env, bool_from_env, is_set, or_default,
}

pub record AgentConfig : Type 0 where
  pub address : String
  pub report_interval : ℤ
  pub poll_interval : ℤ
  pub key : String
  pub rate_limit : ℤ
  pub crypto_key : String
  pub shutdown_timeout : ℤ
  pub grpc_address : String
  pub grpc_ca_cert : String

-- a key that is missing from the file is `none`
pub record AgentFileConfig : Type 0 where
  pub address : Option String
  pub report_interval : Option String
  pub poll_interval : Option String
  pub key : Option String
  pub rate_limit : Option ℤ
  pub crypto_key : Option String
  pub shutdown_timeout : Option String
  pub grpc_address : Option String
  pub grpc_ca_cert : Option String

-- a flag that was not given is `none`; `config` is -c or -config, whichever came last
pub record AgentFlags : Type 0 where
  pub config : Option String
  pub address : Option String
  pub report_interval : Option ℤ
  pub poll_interval : Option ℤ
  pub key : Option String
  pub rate_limit : Option ℤ
  pub crypto_key : Option String
  pub shutdown_timeout : Option ℤ
  pub grpc_address : Option String
  pub grpc_ca_cert : Option String

unfoldable pub defaults : AgentFlags → AgentConfig
defaults flags = record {
  address = or_default flags.address "localhost:8080";
  report_interval = or_default flags.report_interval (pos 10);
  poll_interval = or_default flags.poll_interval (pos 2);
  key = or_default flags.key "";
  rate_limit = or_default flags.rate_limit (pos 1);
  crypto_key = or_default flags.crypto_key "";
  shutdown_timeout = or_default flags.shutdown_timeout (pos 5);
  grpc_address = or_default flags.grpc_address "";
  grpc_ca_cert = or_default flags.grpc_ca_cert "";
}

-- the empty file
unfoldable pub no_file : AgentFileConfig
no_file = record {
  address = none;
  report_interval = none;
  poll_interval = none;
  key = none;
  rate_limit = none;
  crypto_key = none;
  shutdown_timeout = none;
  grpc_address = none;
  grpc_ca_cert = none;
}

-- `applyTo`
unfoldable pub apply_to : Os → AgentFileConfig → AgentFlags → AgentConfig → Result AgentConfig
apply_to os fc flags cfg = do
  report_interval ←
      seconds_from_file os fc.report_interval (is_set flags.report_interval) cfg.report_interval
  poll_interval ←
      seconds_from_file os fc.poll_interval (is_set flags.poll_interval) cfg.poll_interval
  shutdown_timeout ←
      seconds_from_file os fc.shutdown_timeout (is_set flags.shutdown_timeout) cfg.shutdown_timeout
  ok (record {
    address = from_file fc.address (is_set flags.address) cfg.address;
    report_interval = report_interval;
    poll_interval = poll_interval;
    key = from_file fc.key (is_set flags.key) cfg.key;
    rate_limit = from_file fc.rate_limit (is_set flags.rate_limit) cfg.rate_limit;
    crypto_key = from_file fc.crypto_key (is_set flags.crypto_key) cfg.crypto_key;
    shutdown_timeout = shutdown_timeout;
    grpc_address = from_file fc.grpc_address (is_set flags.grpc_address) cfg.grpc_address;
    grpc_ca_cert = from_file fc.grpc_ca_cert (is_set flags.grpc_ca_cert) cfg.grpc_ca_cert;
  })

-- the environment
unfoldable pub apply_env : Os → AgentConfig → AgentConfig
apply_env os cfg = record {
  address = from_env os "ADDRESS" cfg.address;
  report_interval = int_from_env os "REPORT_INTERVAL" cfg.report_interval;
  poll_interval = int_from_env os "POLL_INTERVAL" cfg.poll_interval;
  key = from_env os "KEY" cfg.key;
  rate_limit = int_from_env os "RATE_LIMIT" cfg.rate_limit;
  crypto_key = from_env os "CRYPTO_KEY" cfg.crypto_key;
  shutdown_timeout = int_from_env os "SHUTDOWN_TIMEOUT" cfg.shutdown_timeout;
  grpc_address = from_env os "GRPC_ADDRESS" cfg.grpc_address;
  grpc_ca_cert = from_env os "GRPC_CA_CERT" cfg.grpc_ca_cert;
}

-- the tests at the end of `parseAgentConfig`
unfoldable pub validate : AgentConfig → Result AgentConfig
validate cfg =
    if is_nonpositive cfg.poll_interval
    then err (other "POLL_INTERVAL must be greater than 0")
    else if is_nonpositive cfg.report_interval
    then err (other "REPORT_INTERVAL must be greater than 0")
    else if is_nonpositive cfg.rate_limit
    then err (other "RATE_LIMIT must be greater than 0")
    else if is_nonpositive cfg.shutdown_timeout
    then err (other "SHUTDOWN_TIMEOUT must be greater than 0")
    else ok cfg

-- `parseAgentConfig`; `read` reads and decodes the file at a path
unfoldable pub parse_agent_config :
    Os → (String → Result AgentFileConfig) → AgentFlags → Result AgentConfig
parse_agent_config os read flags = do
  fc ← load_config_file read no_file (resolve_config_path os (or_default flags.config ""))
  cfg ← apply_to os fc flags (defaults flags)
  validate (apply_env os cfg)
