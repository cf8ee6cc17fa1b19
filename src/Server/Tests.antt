-- ===== src/Server/Tests.antt =====
-- A server that takes a last update while it is stopped, and its next start.
use metrics_alerting_service.Prelude.{
  ℕ, String, ◌≡◌, ◌≢◌, refl, true, false, none, some, [], ◌∷◌, arith,
}
use metrics_alerting_service.Dict.{get, put}
use metrics_alerting_service.Model.{add_int64}
use metrics_alerting_service.Errors.{ok, deadline_exceeded}
use metrics_alerting_service.Repository.Mem.{MemStorage, mem_storage, add_counter, new_mem_storage}
use metrics_alerting_service.File.{
  save, load, load_metrics, replace_file, gauge_entry, counter_entry,
}
use metrics_alerting_service.File.Example.{
  Files, files, files_laws, codec, codec_laws, in_order, in_order-Enumerates,
}
use metrics_alerting_service.File.RoundTrip.{IsInRange}
use metrics_alerting_service.Config.{pos}
use metrics_alerting_service.Config.Server.{ServerConfig}
use metrics_alerting_service.Server.{
  memory, storage_mode, file_sink, http_sink, setup_audit, Running, drained, on_shutdown, shutdown,
  start,
}
use metrics_alerting_service.Server.Restart.{Agrees, KeepsStorage, start-shutdown}

abbrev config : ServerConfig
config = record {
  address = "localhost:8080";
  store_interval = pos 300;
  file_storage_path = "db.json";
  restore = true;
  database_dsn = "";
  key = "";
  audit_file = "audit.log";
  audit_url = "http://audit";
  pprof_addr = "";
  crypto_key = "";
  shutdown_timeout = pos 5;
  trusted_subnet = "";
  grpc_address = "";
  grpc_cert_file = "";
  grpc_key_file = "";
}

config-mode : storage_mode config ≡ memory false true true
unfolding storage_mode
config-mode = refl

config-audit :
    setup_audit (λ path (w : ℕ). (none, w)) config 0
    ≡ (ok (some (file_sink "audit.log" ∷ http_sink "http://audit" ∷ [])), 0)
unfolding setup_audit
config-audit = refl

abbrev running : Running in_order codec files
running = record {
  stop_http = λ p. (some deadline_exceeded, (add_counter "PollCount" 2 p.0, p.1));
  stop_pprof = λ p. (none, p);
  graceful_stop = λ p. (true, p);
  force_stop = λ p. p;
  late = [];
  close_audit = λ w. w;
  has_audit = true;
}

abbrev at_signal : MemStorage × Files
at_signal = (record { gauges = []; counters = ("PollCount", 5) ∷ [] }, λ j. none)

path-given : ◌≢◌ {A = String} "db.json" ""
path-given h = cc

running-KeepsStorage :
    KeepsStorage in_order codec files in_order-Enumerates codec_laws files_laws running "db.json"
running-KeepsStorage w = refl

last_update : IsInRange (drained in_order codec files running config at_signal).0.counters
unfolding drained get put add_counter add_int64
last_update k d h = ground arith

saved : (shutdown in_order codec files running config at_signal).0 ≡ none
unfolding shutdown on_shutdown drained save in_order mem_storage replace_file gauge_entry
    counter_entry put
saved = refl

-- A periodic save that began before the last update, and is renamed into place after the save at the end:
-- the next start has lost the update, and the save at the end had no error.
abbrev overtaken : Running in_order codec files
overtaken = record running { late = at_signal.0 ∷ [] }

update_lost :
    let r = shutdown in_order codec files overtaken config at_signal in
    (r.0 ≡ none)
    × (get "PollCount" (start in_order codec files config r.2).1.counters ≡ some 5)
    × (get "PollCount" r.1.counters ≡ some 7)
unfolding shutdown start on_shutdown drained save load load_metrics in_order mem_storage
    replace_file gauge_entry counter_entry put get add_counter add_int64 new_mem_storage
update_lost = (refl, refl, refl)

start-shutdown_example :
    let r =
      start in_order codec files config
        (shutdown in_order codec files running config at_signal).2 in
    (r.0 ≡ none)
    × Agrees in_order codec files in_order-Enumerates codec_laws files_laws r.1
        (drained in_order codec files running config at_signal).0
start-shutdown_example =
    start-shutdown in_order codec files in_order-Enumerates codec_laws files_laws running config
      at_signal path-given refl refl running-KeepsStorage last_update saved
