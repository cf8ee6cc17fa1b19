-- ===== src/Config/Server.antt =====
-- internal/config/server.go: the configuration of the server. What the package `flag` made of the
-- command line is a record that holds the value of each flag that was given.
pub mod Resolve
use metrics_alerting_service.Prelude.{String, Bool, true, Option, none, some, if◌then◌else◌}
use metrics_alerting_service.Errors.{Error, other, Result, ok, err, ◌>>=◌}
use metrics_alerting_service.Config.{
  ℤ, pos, Os, is_nonpositive, resolve_config_path, load_config_file, from_file, seconds_from_file,
  from_env, int_from_env, bool_from_env, is_set, or_default,
}

pub record ServerConfig : Type 0 where
  pub address : String
  pub store_interval : ℤ
  pub file_storage_path : String
  pub restore : Bool
  pub database_dsn : String
  pub key : String
  pub audit_file : String
  pub audit_url : String
  pub pprof_addr : String
  pub crypto_key : String
  pub shutdown_timeout : ℤ
  pub trusted_subnet : String
  pub grpc_address : String
  pub grpc_cert_file : String
  pub grpc_key_file : String

-- a key that is missing from the file is `none`
pub record ServerFileConfig : Type 0 where
  pub address : Option String
  pub store_interval : Option String
  pub file_storage_path : Option String
  pub restore : Option Bool
  pub database_dsn : Option String
  pub key : Option String
  pub audit_file : Option String
  pub audit_url : Option String
  pub pprof_addr : Option String
  pub crypto_key : Option String
  pub shutdown_timeout : Option String
  pub trusted_subnet : Option String
  pub grpc_address : Option String
  pub grpc_cert_file : Option String
  pub grpc_key_file : Option String

-- a flag that was not given is `none`; `config` is -c or -config, whichever came last
pub record ServerFlags : Type 0 where
  pub config : Option String
  pub address : Option String
  pub store_interval : Option ℤ
  pub file_storage_path : Option String
  pub restore : Option Bool
  pub database_dsn : Option String
  pub key : Option String
  pub audit_file : Option String
  pub audit_url : Option String
  pub pprof_addr : Option String
  pub crypto_key : Option String
  pub shutdown_timeout : Option ℤ
  pub trusted_subnet : Option String
  pub grpc_address : Option String
  pub grpc_cert_file : Option String
  pub grpc_key_file : Option String

unfoldable pub defaults : ServerFlags → ServerConfig
defaults flags = record {
  address = or_default flags.address "localhost:8080";
  store_interval = or_default flags.store_interval (pos 300);
  file_storage_path = or_default flags.file_storage_path "/tmp/metrics-db.json";
  restore = or_default flags.restore true;
  database_dsn = or_default flags.database_dsn "";
  key = or_default flags.key "";
  audit_file = or_default flags.audit_file "";
  audit_url = or_default flags.audit_url "";
  pprof_addr = or_default flags.pprof_addr "";
  crypto_key = or_default flags.crypto_key "";
  shutdown_timeout = or_default flags.shutdown_timeout (pos 5);
  trusted_subnet = or_default flags.trusted_subnet "";
  grpc_address = or_default flags.grpc_address "";
  grpc_cert_file = or_default flags.grpc_cert_file "";
  grpc_key_file = or_default flags.grpc_key_file "";
}

-- the empty file
unfoldable pub no_file : ServerFileConfig
no_file = record {
  address = none;
  store_interval = none;
  file_storage_path = none;
  restore = none;
  database_dsn = none;
  key = none;
  audit_file = none;
  audit_url = none;
  pprof_addr = none;
  crypto_key = none;
  shutdown_timeout = none;
  trusted_subnet = none;
  grpc_address = none;
  grpc_cert_file = none;
  grpc_key_file = none;
}

-- `applyTo`
unfoldable pub apply_to : Os → ServerFileConfig → ServerFlags → ServerConfig → Result ServerConfig
apply_to os fc flags cfg = do
  store_interval ←
      seconds_from_file os fc.store_interval (is_set flags.store_interval) cfg.store_interval
  shutdown_timeout ←
      seconds_from_file os fc.shutdown_timeout (is_set flags.shutdown_timeout) cfg.shutdown_timeout
  ok (record {
    address = from_file fc.address (is_set flags.address) cfg.address;
    store_interval = store_interval;
    file_storage_path =
        from_file fc.file_storage_path (is_set flags.file_storage_path) cfg.file_storage_path;
    restore = from_file fc.restore (is_set flags.restore) cfg.restore;
    database_dsn = from_file fc.database_dsn (is_set flags.database_dsn) cfg.database_dsn;
    key = from_file fc.key (is_set flags.key) cfg.key;
    audit_file = from_file fc.audit_file (is_set flags.audit_file) cfg.audit_file;
    audit_url = from_file fc.audit_url (is_set flags.audit_url) cfg.audit_url;
    pprof_addr = from_file fc.pprof_addr (is_set flags.pprof_addr) cfg.pprof_addr;
    crypto_key = from_file fc.crypto_key (is_set flags.crypto_key) cfg.crypto_key;
    shutdown_timeout = shutdown_timeout;
    trusted_subnet = from_file fc.trusted_subnet (is_set flags.trusted_subnet) cfg.trusted_subnet;
    grpc_address = from_file fc.grpc_address (is_set flags.grpc_address) cfg.grpc_address;
    grpc_cert_file = from_file fc.grpc_cert_file (is_set flags.grpc_cert_file) cfg.grpc_cert_file;
    grpc_key_file = from_file fc.grpc_key_file (is_set flags.grpc_key_file) cfg.grpc_key_file;
  })

-- the environment
unfoldable pub apply_env : Os → ServerConfig → ServerConfig
apply_env os cfg = record {
  address = from_env os "ADDRESS" cfg.address;
  store_interval = int_from_env os "STORE_INTERVAL" cfg.store_interval;
  file_storage_path = from_env os "FILE_STORAGE_PATH" cfg.file_storage_path;
  restore = bool_from_env os "RESTORE" cfg.restore;
  database_dsn = from_env os "DATABASE_DSN" cfg.database_dsn;
  key = from_env os "KEY" cfg.key;
  audit_file = from_env os "AUDIT_FILE" cfg.audit_file;
  audit_url = from_env os "AUDIT_URL" cfg.audit_url;
  pprof_addr = from_env os "PPROF_ADDR" cfg.pprof_addr;
  crypto_key = from_env os "CRYPTO_KEY" cfg.crypto_key;
  shutdown_timeout = int_from_env os "SHUTDOWN_TIMEOUT" cfg.shutdown_timeout;
  trusted_subnet = from_env os "TRUSTED_SUBNET" cfg.trusted_subnet;
  grpc_address = from_env os "GRPC_ADDRESS" cfg.grpc_address;
  grpc_cert_file = from_env os "GRPC_CERT_FILE" cfg.grpc_cert_file;
  grpc_key_file = from_env os "GRPC_KEY_FILE" cfg.grpc_key_file;
}

-- the tests at the end of `parseServerConfig`
unfoldable pub validate : ServerConfig → Result ServerConfig
validate cfg =
    if is_nonpositive cfg.shutdown_timeout
    then err (other "SHUTDOWN_TIMEOUT must be greater than 0")
    else ok cfg

-- `parseServerConfig`; `read` reads and decodes the file at a path
unfoldable pub parse_server_config :
    Os → (String → Result ServerFileConfig) → ServerFlags → Result ServerConfig
parse_server_config os read flags = do
  fc ← load_config_file read no_file (resolve_config_path os (or_default flags.config ""))
  cfg ← apply_to os fc flags (defaults flags)
  validate (apply_env os cfg)
