-- ===== src/Config/Server/Resolve.antt =====
-- Where each setting of the server comes from, and which settings are accepted.
use metrics_alerting_service.Prelude.{String, ◌≡◌, ◌∙◌, ap, true, false, arith}
use metrics_alerting_service.Errors.{Result, ok, ◌>>=◌, >>=-eq-ok}
use metrics_alerting_service.Config.{
  ℤ, pos, Os, is_nonpositive, resolve_config_path, load_config_file, from_file, seconds_from_file,
  is_set, or_default,
}
use metrics_alerting_service.Config.Precedence.{
  pick, env_int, env_bool, file_seconds, from_env-pick, bool_from_env-pick, seconds-pick,
}
use metrics_alerting_service.Config.Server.{
  ServerConfig, ServerFileConfig, ServerFlags, defaults, no_file, apply_to, apply_env, validate,
  parse_server_config,
}

-- Every setting of `cfg` is the first of: the environment, the flag, the file `fc`, the default. A
-- number in the environment counts if it parses.
pub record IsResolved (os : Os) (fc : ServerFileConfig) (flags : ServerFlags) (cfg : ServerConfig)
    : Type 0 where
  pub address :
      cfg.address ≡ pick (os.lookup_env "ADDRESS") flags.address fc.address "localhost:8080"
  pub store_interval :
      cfg.store_interval
      ≡ pick
          (env_int os "STORE_INTERVAL")
          flags.store_interval
          (file_seconds os fc.store_interval)
          (pos 300)
  pub file_storage_path :
      cfg.file_storage_path
      ≡ pick
          (os.lookup_env "FILE_STORAGE_PATH")
          flags.file_storage_path
          fc.file_storage_path
          "/tmp/metrics-db.json"
  pub restore : cfg.restore ≡ pick (env_bool os "RESTORE") flags.restore fc.restore true
  pub database_dsn :
      cfg.database_dsn ≡ pick (os.lookup_env "DATABASE_DSN") flags.database_dsn fc.database_dsn ""
  pub key : cfg.key ≡ pick (os.lookup_env "KEY") flags.key fc.key ""
  pub audit_file :
      cfg.audit_file ≡ pick (os.lookup_env "AUDIT_FILE") flags.audit_file fc.audit_file ""
  pub audit_url : cfg.audit_url ≡ pick (os.lookup_env "AUDIT_URL") flags.audit_url fc.audit_url ""
  pub pprof_addr :
      cfg.pprof_addr ≡ pick (os.lookup_env "PPROF_ADDR") flags.pprof_addr fc.pprof_addr ""
  pub crypto_key :
      cfg.crypto_key ≡ pick (os.lookup_env "CRYPTO_KEY") flags.crypto_key fc.crypto_key ""
  pub shutdown_timeout :
      cfg.shutdown_timeout
      ≡ pick
          (env_int os "SHUTDOWN_TIMEOUT")
          flags.shutdown_timeout
          (file_seconds os fc.shutdown_timeout)
          (pos 5)
  pub trusted_subnet :
      cfg.trusted_subnet
      ≡ pick (os.lookup_env "TRUSTED_SUBNET") flags.trusted_subnet fc.trusted_subnet ""
  pub grpc_address :
      cfg.grpc_address ≡ pick (os.lookup_env "GRPC_ADDRESS") flags.grpc_address fc.grpc_address ""
  pub grpc_cert_file :
      cfg.grpc_cert_file
      ≡ pick (os.lookup_env "GRPC_CERT_FILE") flags.grpc_cert_file fc.grpc_cert_file ""
  pub grpc_key_file :
      cfg.grpc_key_file
      ≡ pick (os.lookup_env "GRPC_KEY_FILE") flags.grpc_key_file fc.grpc_key_file ""

-- the settings after the file, with the durations that it gave
abbrev merged : ServerFileConfig → ServerFlags → ℤ → ℤ → ServerConfig
merged fc flags store_interval shutdown_timeout = record {
  address = from_file fc.address (is_set flags.address) (or_default flags.address "localhost:8080");
  store_interval = store_interval;
  file_storage_path =
      from_file fc.file_storage_path (is_set flags.file_storage_path)
        (or_default flags.file_storage_path "/tmp/metrics-db.json");
  restore = from_file fc.restore (is_set flags.restore) (or_default flags.restore true);
  database_dsn =
      from_file fc.database_dsn (is_set flags.database_dsn) (or_default flags.database_dsn "");
  key = from_file fc.key (is_set flags.key) (or_default flags.key "");
  audit_file = from_file fc.audit_file (is_set flags.audit_file) (or_default flags.audit_file "");
  audit_url = from_file fc.audit_url (is_set flags.audit_url) (or_default flags.audit_url "");
  pprof_addr = from_file fc.pprof_addr (is_set flags.pprof_addr) (or_default flags.pprof_addr "");
  crypto_key = from_file fc.crypto_key (is_set flags.crypto_key) (or_default flags.crypto_key "");
  shutdown_timeout = shutdown_timeout;
  trusted_subnet =
      from_file fc.trusted_subnet (is_set flags.trusted_subnet)
        (or_default flags.trusted_subnet "");
  grpc_address =
      from_file fc.grpc_address (is_set flags.grpc_address) (or_default flags.grpc_address "");
  grpc_cert_file =
      from_file fc.grpc_cert_file (is_set flags.grpc_cert_file)
        (or_default flags.grpc_cert_file "");
  grpc_key_file =
      from_file fc.grpc_key_file (is_set flags.grpc_key_file) (or_default flags.grpc_key_file "");
}

record Durations (os : Os) (fc : ServerFileConfig) (flags : ServerFlags) (cfg : ServerConfig)
    : Type 0 where
  store_interval : ℤ
  shutdown_timeout : ℤ
  store_interval_ok :
      seconds_from_file os fc.store_interval
        (is_set flags.store_interval)
        (or_default flags.store_interval (pos 300))
      ≡ ok store_interval
  shutdown_timeout_ok :
      seconds_from_file os fc.shutdown_timeout
        (is_set flags.shutdown_timeout)
        (or_default flags.shutdown_timeout (pos 5))
      ≡ ok shutdown_timeout
  result : cfg ≡ merged fc flags store_interval shutdown_timeout

apply_to-Durations :
    (os : Os) (fc : ServerFileConfig) (flags : ServerFlags) (cfg : ServerConfig)
    → apply_to os fc flags (defaults flags) ≡ ok cfg
    → Durations os fc flags cfg
unfolding apply_to defaults
apply_to-Durations os fc flags cfg h =
    let (store_interval, e0, h0) =
      >>=-eq-ok
        (seconds_from_file os fc.store_interval (is_set flags.store_interval)
          (or_default flags.store_interval (pos 300)))
        (λ store_interval.
          seconds_from_file os fc.shutdown_timeout (is_set flags.shutdown_timeout)
            (or_default flags.shutdown_timeout (pos 5))
          >>= λ shutdown_timeout. ok (merged fc flags store_interval shutdown_timeout))
        h in
    let (shutdown_timeout, e1, h1) =
      >>=-eq-ok
        (seconds_from_file os fc.shutdown_timeout (is_set flags.shutdown_timeout)
          (or_default flags.shutdown_timeout (pos 5)))
        (λ shutdown_timeout. ok (merged fc flags store_interval shutdown_timeout)) h0 in
    record {
      store_interval = store_interval;
      store_interval_ok = e0;
      shutdown_timeout = shutdown_timeout;
      shutdown_timeout_ok = e1;
      result = cc (h1);
    }

validate-ok : (c cfg : ServerConfig) → validate c ≡ ok cfg → cfg ≡ c
unfolding validate
validate-ok c cfg h = ground arith

validate_positive :
    (c cfg : ServerConfig) → validate c ≡ ok cfg → (is_nonpositive cfg.shutdown_timeout ≡ false)
unfolding validate
validate_positive c cfg h = ground arith

resolved :
    (os : Os) (fc : ServerFileConfig) (flags : ServerFlags) (c cfg : ServerConfig)
    → Durations os fc flags c
    → cfg ≡ apply_env os c
    → IsResolved os fc flags cfg
unfolding apply_env
resolved os fc flags c cfg d e =
    let p : cfg ≡ apply_env os (merged fc flags d.store_interval d.shutdown_timeout) =
      e ∙ ap (apply_env os) d.result in
    record {
      address =
          ap (λ (x : ServerConfig). x.address) p
          ∙ from_env-pick os "ADDRESS" flags.address fc.address "localhost:8080";
      store_interval =
          ap (λ (x : ServerConfig). x.store_interval) p
          ∙ seconds-pick os "STORE_INTERVAL" flags.store_interval fc.store_interval (pos 300)
              d.store_interval d.store_interval_ok;
      file_storage_path =
          ap (λ (x : ServerConfig). x.file_storage_path) p
          ∙ from_env-pick os "FILE_STORAGE_PATH" flags.file_storage_path fc.file_storage_path
              "/tmp/metrics-db.json";
      restore =
          ap (λ (x : ServerConfig). x.restore) p
          ∙ bool_from_env-pick os "RESTORE" flags.restore fc.restore true;
      database_dsn =
          ap (λ (x : ServerConfig). x.database_dsn) p
          ∙ from_env-pick os "DATABASE_DSN" flags.database_dsn fc.database_dsn "";
      key = ap (λ (x : ServerConfig). x.key) p ∙ from_env-pick os "KEY" flags.key fc.key "";
      audit_file =
          ap (λ (x : ServerConfig). x.audit_file) p
          ∙ from_env-pick os "AUDIT_FILE" flags.audit_file fc.audit_file "";
      audit_url =
          ap (λ (x : ServerConfig). x.audit_url) p
          ∙ from_env-pick os "AUDIT_URL" flags.audit_url fc.audit_url "";
      pprof_addr =
          ap (λ (x : ServerConfig). x.pprof_addr) p
          ∙ from_env-pick os "PPROF_ADDR" flags.pprof_addr fc.pprof_addr "";
      crypto_key =
          ap (λ (x : ServerConfig). x.crypto_key) p
          ∙ from_env-pick os "CRYPTO_KEY" flags.crypto_key fc.crypto_key "";
      shutdown_timeout =
          ap (λ (x : ServerConfig). x.shutdown_timeout) p
          ∙ seconds-pick os "SHUTDOWN_TIMEOUT" flags.shutdown_timeout fc.shutdown_timeout (pos 5)
              d.shutdown_timeout d.shutdown_timeout_ok;
      trusted_subnet =
          ap (λ (x : ServerConfig). x.trusted_subnet) p
          ∙ from_env-pick os "TRUSTED_SUBNET" flags.trusted_subnet fc.trusted_subnet "";
      grpc_address =
          ap (λ (x : ServerConfig). x.grpc_address) p
          ∙ from_env-pick os "GRPC_ADDRESS" flags.grpc_address fc.grpc_address "";
      grpc_cert_file =
          ap (λ (x : ServerConfig). x.grpc_cert_file) p
          ∙ from_env-pick os "GRPC_CERT_FILE" flags.grpc_cert_file fc.grpc_cert_file "";
      grpc_key_file =
          ap (λ (x : ServerConfig). x.grpc_key_file) p
          ∙ from_env-pick os "GRPC_KEY_FILE" flags.grpc_key_file fc.grpc_key_file "";
    }

module _ (os : Os) (read : String → Result ServerFileConfig) (flags : ServerFlags)
    (cfg : ServerConfig) (parsed : parse_server_config os read flags ≡ ok cfg) where
  -- When the configuration of the server is accepted, its file was read (an empty path is the empty
  -- file), and each setting is the first of the environment, the flag, the file and the default.
  parse_server_config-IsResolved :
      (fc : ServerFileConfig) × (load_config_file read no_file
          (resolve_config_path os (or_default flags.config ""))
        ≡ ok fc)
      × IsResolved os fc flags cfg
  unfolding parse_server_config
  parse_server_config-IsResolved =
      let (fc, loaded, rest) =
        >>=-eq-ok
          (load_config_file read no_file (resolve_config_path os (or_default flags.config "")))
          (λ fc. apply_to os fc flags (defaults flags) >>= λ c. validate (apply_env os c)) parsed in
      let (c, applied, valid) =
        >>=-eq-ok (apply_to os fc flags (defaults flags)) (λ c. validate (apply_env os c)) rest in
      (
        fc,
        loaded,
        resolved os fc flags c cfg (apply_to-Durations os fc flags c applied)
            (validate-ok (apply_env os c) cfg valid),
      )

  -- An accepted configuration has positive values where the server needs them.
  pub parse_server_config_positive : (is_nonpositive cfg.shutdown_timeout ≡ false)
  unfolding parse_server_config
  parse_server_config_positive =
      let (fc, loaded, rest) =
        >>=-eq-ok
          (load_config_file read no_file (resolve_config_path os (or_default flags.config "")))
          (λ fc. apply_to os fc flags (defaults flags) >>= λ c. validate (apply_env os c)) parsed in
      let (c, applied, valid) =
        >>=-eq-ok (apply_to os fc flags (defaults flags)) (λ c. validate (apply_env os c)) rest in
      validate_positive (apply_env os c) cfg valid
