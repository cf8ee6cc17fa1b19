-- ===== src/Config/Agent/Resolve.antt =====
-- Where each setting of the agent comes from, and which settings are accepted.
use metrics_alerting_service.Prelude.{String, ◌≡◌, ◌∙◌, ap, false, arith}
use metrics_alerting_service.Errors.{Result, ok, ◌>>=◌, >>=-eq-ok}
use metrics_alerting_service.Config.{
  ℤ, pos, Os, is_nonpositive, resolve_config_path, load_config_file, from_file, seconds_from_file,
  is_set, or_default,
}
use metrics_alerting_service.Config.Precedence.{
  pick, env_int, file_seconds, from_env-pick, int_from_env-pick, seconds-pick,
}
use metrics_alerting_service.Config.Agent.{
  AgentConfig, AgentFileConfig, AgentFlags, defaults, no_file, apply_to, apply_env, validate,
  parse_agent_config,
}

-- Every setting of `cfg` is the first of: the environment, the flag, the file `fc`, the default. A
-- number in the environment counts if it parses.
pub record IsResolved (os : Os) (fc : AgentFileConfig) (flags : AgentFlags) (cfg : AgentConfig)
    : Type 0 where
  pub address :
      cfg.address ≡ pick (os.lookup_env "ADDRESS") flags.address fc.address "localhost:8080"
  pub report_interval :
      cfg.report_interval
      ≡ pick
          (env_int os "REPORT_INTERVAL")
          flags.report_interval
          (file_seconds os fc.report_interval)
          (pos 10)
  pub poll_interval :
      cfg.poll_interval
      ≡ pick
          (env_int os "POLL_INTERVAL")
          flags.poll_interval
          (file_seconds os fc.poll_interval)
          (pos 2)
  pub key : cfg.key ≡ pick (os.lookup_env "KEY") flags.key fc.key ""
  pub rate_limit :
      cfg.rate_limit ≡ pick (env_int os "RATE_LIMIT") flags.rate_limit fc.rate_limit (pos 1)
  pub crypto_key :
      cfg.crypto_key ≡ pick (os.lookup_env "CRYPTO_KEY") flags.crypto_key fc.crypto_key ""
  pub shutdown_timeout :
      cfg.shutdown_timeout
      ≡ pick
          (env_int os "SHUTDOWN_TIMEOUT")
          flags.shutdown_timeout
          (file_seconds os fc.shutdown_timeout)
          (pos 5)
  pub grpc_address :
      cfg.grpc_address ≡ pick (os.lookup_env "GRPC_ADDRESS") flags.grpc_address fc.grpc_address ""
  pub grpc_ca_cert :
      cfg.grpc_ca_cert ≡ pick (os.lookup_env "GRPC_CA_CERT") flags.grpc_ca_cert fc.grpc_ca_cert ""

-- the settings after the file, with the durations that it gave
abbrev merged : AgentFileConfig → AgentFlags → ℤ → ℤ → ℤ → AgentConfig
merged fc flags report_interval poll_interval shutdown_timeout = record {
  address = from_file fc.address (is_set flags.address) (or_default flags.address "localhost:8080");
  report_interval = report_interval;
  poll_interval = poll_interval;
  key = from_file fc.key (is_set flags.key) (or_default flags.key "");
  rate_limit =
      from_file fc.rate_limit (is_set flags.rate_limit) (or_default flags.rate_limit (pos 1));
  crypto_key = from_file fc.crypto_key (is_set flags.crypto_key) (or_default flags.crypto_key "");
  shutdown_timeout = shutdown_timeout;
  grpc_address =
      from_file fc.grpc_address (is_set flags.grpc_address) (or_default flags.grpc_address "");
  grpc_ca_cert =
      from_file fc.grpc_ca_cert (is_set flags.grpc_ca_cert) (or_default flags.grpc_ca_cert "");
}

record Durations (os : Os) (fc : AgentFileConfig) (flags : AgentFlags) (cfg : AgentConfig)
    : Type 0 where
  report_interval : ℤ
  poll_interval : ℤ
  shutdown_timeout : ℤ
  report_interval_ok :
      seconds_from_file os fc.report_interval
        (is_set flags.report_interval)
        (or_default flags.report_interval (pos 10))
      ≡ ok report_interval
  poll_interval_ok :
      seconds_from_file os fc.poll_interval
        (is_set flags.poll_interval)
        (or_default flags.poll_interval (pos 2))
      ≡ ok poll_interval
  shutdown_timeout_ok :
      seconds_from_file os fc.shutdown_timeout
        (is_set flags.shutdown_timeout)
        (or_default flags.shutdown_timeout (pos 5))
      ≡ ok shutdown_timeout
  result : cfg ≡ merged fc flags report_interval poll_interval shutdown_timeout

apply_to-Durations :
    (os : Os) (fc : AgentFileConfig) (flags : AgentFlags) (cfg : AgentConfig)
    → apply_to os fc flags (defaults flags) ≡ ok cfg
    → Durations os fc flags cfg
unfolding apply_to defaults
apply_to-Durations os fc flags cfg h =
    let (report_interval, e0, h0) =
      >>=-eq-ok
        (seconds_from_file os fc.report_interval (is_set flags.report_interval)
          (or_default flags.report_interval (pos 10)))
        (λ report_interval.
          seconds_from_file os fc.poll_interval (is_set flags.poll_interval)
            (or_default flags.poll_interval (pos 2))
          >>= λ poll_interval.
              seconds_from_file os fc.shutdown_timeout (is_set flags.shutdown_timeout)
                (or_default flags.shutdown_timeout (pos 5))
              >>= λ shutdown_timeout.
                  ok (merged fc flags report_interval poll_interval shutdown_timeout))
        h in
    let (poll_interval, e1, h1) =
      >>=-eq-ok
        (seconds_from_file os fc.poll_interval (is_set flags.poll_interval)
          (or_default flags.poll_interval (pos 2)))
        (λ poll_interval.
          seconds_from_file os fc.shutdown_timeout (is_set flags.shutdown_timeout)
            (or_default flags.shutdown_timeout (pos 5))
          >>= λ shutdown_timeout.
              ok (merged fc flags report_interval poll_interval shutdown_timeout))
        h0 in
    let (shutdown_timeout, e2, h2) =
      >>=-eq-ok
        (seconds_from_file os fc.shutdown_timeout (is_set flags.shutdown_timeout)
          (or_default flags.shutdown_timeout (pos 5)))
        (λ shutdown_timeout. ok (merged fc flags report_interval poll_interval shutdown_timeout))
        h1 in
    record {
      report_interval = report_interval;
      report_interval_ok = e0;
      poll_interval = poll_interval;
      poll_interval_ok = e1;
      shutdown_timeout = shutdown_timeout;
      shutdown_timeout_ok = e2;
      result = cc (h2);
    }

validate-ok : (c cfg : AgentConfig) → validate c ≡ ok cfg → cfg ≡ c
unfolding validate
validate-ok c cfg h = ground arith

validate_positive :
    (c cfg : AgentConfig)
    → validate c ≡ ok cfg
    → (is_nonpositive cfg.poll_interval ≡ false)
      × (is_nonpositive cfg.report_interval ≡ false)
      × (is_nonpositive cfg.rate_limit ≡ false)
      × (is_nonpositive cfg.shutdown_timeout ≡ false)
unfolding validate
validate_positive c cfg h = ground arith

resolved :
    (os : Os) (fc : AgentFileConfig) (flags : AgentFlags) (c cfg : AgentConfig)
    → Durations os fc flags c
    → cfg ≡ apply_env os c
    → IsResolved os fc flags cfg
unfolding apply_env
resolved os fc flags c cfg d e =
    let p : cfg
        ≡ apply_env os (merged fc flags d.report_interval d.poll_interval d.shutdown_timeout) =
      e ∙ ap (apply_env os) d.result in
    record {
      address =
          ap (λ (x : AgentConfig). x.address) p
          ∙ from_env-pick os "ADDRESS" flags.address fc.address "localhost:8080";
      report_interval =
          ap (λ (x : AgentConfig). x.report_interval) p
          ∙ seconds-pick os "REPORT_INTERVAL" flags.report_interval fc.report_interval (pos 10)
              d.report_interval d.report_interval_ok;
      poll_interval =
          ap (λ (x : AgentConfig). x.poll_interval) p
          ∙ seconds-pick os "POLL_INTERVAL" flags.poll_interval fc.poll_interval (pos 2)
              d.poll_interval d.poll_interval_ok;
      key = ap (λ (x : AgentConfig). x.key) p ∙ from_env-pick os "KEY" flags.key fc.key "";
      rate_limit =
          ap (λ (x : AgentConfig). x.rate_limit) p
          ∙ int_from_env-pick os "RATE_LIMIT" flags.rate_limit fc.rate_limit (pos 1);
      crypto_key =
          ap (λ (x : AgentConfig). x.crypto_key) p
          ∙ from_env-pick os "CRYPTO_KEY" flags.crypto_key fc.crypto_key "";
      shutdown_timeout =
          ap (λ (x : AgentConfig). x.shutdown_timeout) p
          ∙ seconds-pick os "SHUTDOWN_TIMEOUT" flags.shutdown_timeout fc.shutdown_timeout (pos 5)
              d.shutdown_timeout d.shutdown_timeout_ok;
      grpc_address =
          ap (λ (x : AgentConfig). x.grpc_address) p
          ∙ from_env-pick os "GRPC_ADDRESS" flags.grpc_address fc.grpc_address "";
      grpc_ca_cert =
          ap (λ (x : AgentConfig). x.grpc_ca_cert) p
          ∙ from_env-pick os "GRPC_CA_CERT" flags.grpc_ca_cert fc.grpc_ca_cert "";
    }

module _ (os : Os) (read : String → Result AgentFileConfig) (flags : AgentFlags) (cfg : AgentConfig)
    (parsed : parse_agent_config os read flags ≡ ok cfg) where
  -- When the configuration of the agent is accepted, its file was read (an empty path is the empty
  -- file), and each setting is the first of the environment, the flag, the file and the default.
  pub parse_agent_config-IsResolved :
      (fc : AgentFileConfig) × (load_config_file read no_file
          (resolve_config_path os (or_default flags.config ""))
        ≡ ok fc)
      × IsResolved os fc flags cfg
  unfolding parse_agent_config
  parse_agent_config-IsResolved =
      let (fc, loaded, rest) =
        >>=-eq-ok
          (load_config_file read no_file (resolve_config_path os (or_default flags.config "")))
          (λ fc. apply_to os fc flags (defaults flags) >>= λ c. validate (apply_env os c)) parsed in
      let (c, applied, valid) =
        >>=-eq-ok (apply_to os fc flags (defaults flags)) (λ c. validate (apply_env os c)) rest in
      (
        fc,
        loaded,
        resolved os fc flags c cfg (apply_to-Durations os fc flags c applied)
            (validate-ok (apply_env os c) cfg valid),
      )

  -- An accepted configuration has positive values where the agent needs them.
  pub parse_agent_config_positive :
      (is_nonpositive cfg.poll_interval ≡ false)
      × (is_nonpositive cfg.report_interval ≡ false)
      × (is_nonpositive cfg.rate_limit ≡ false)
      × (is_nonpositive cfg.shutdown_timeout ≡ false)
  unfolding parse_agent_config
  parse_agent_config_positive =
      let (fc, loaded, rest) =
        >>=-eq-ok
          (load_config_file read no_file (resolve_config_path os (or_default flags.config "")))
          (λ fc. apply_to os fc flags (defaults flags) >>= λ c. validate (apply_env os c)) parsed in
      let (c, applied, valid) =
        >>=-eq-ok (apply_to os fc flags (defaults flags)) (λ c. validate (apply_env os c)) rest in
      validate_positive (apply_env os c) cfg valid
