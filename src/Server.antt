-- ===== src/Server.antt =====
-- cmd/server/main.go: which storage the server uses, what it reads at its start, its sinks of the audit
-- and what it does when it is told to stop. The servers of net/http and grpc are parameters: stopping
-- one of them lets its requests finish, which may change the storage and the files.
pub mod Restart
pub mod Startup
mod Tests
use metrics_alerting_service.Prelude.{
  ℕ, zero, suc, String, Bool, true, false, ◌&&◌, not, Option, none, some, List, [], ◌∷◌, ◌++◌, ◌==◌,
  if◌then◌else◌,
}
use metrics_alerting_service.Dict.{Dict}
use metrics_alerting_service.Errors.{Error, Result, err, ok}
use metrics_alerting_service.Repository.Mem.{MemStorage, mem_storage, new_mem_storage}
use metrics_alerting_service.File.{FileSystem, Codec, save, load}
use metrics_alerting_service.Config.{ℤ, pos}
use metrics_alerting_service.Config.Server.{ServerConfig}

-- The storage behind the service: PostgreSQL, or the one in memory, saved on each update (`sync`) or
-- every `store_interval` seconds (`periodic`), and at the end (`final`).
pub data StorageMode : Type 0 where
  database : String → StorageMode
  memory : (sync periodic final : Bool) → StorageMode

is_zero : ℤ → Bool
is_zero (pos zero) = true
is_zero _ = false

is_positive : ℤ → Bool
is_positive (pos (suc n)) = true
is_positive _ = false

unfoldable pub storage_mode : ServerConfig → StorageMode
unfolding is_zero is_positive
storage_mode cfg =
    if cfg.database_dsn == ""
    then memory (is_zero cfg.store_interval && not (cfg.file_storage_path == ""))
        (is_positive cfg.store_interval && not (cfg.file_storage_path == ""))
        (not (cfg.file_storage_path == ""))
    else database cfg.database_dsn

pub data Observer : Type 0 where
  file_sink http_sink : String → Observer

http_observers : ServerConfig → List Observer
http_observers cfg = if cfg.audit_url == "" then [] else http_sink cfg.audit_url ∷ []

-- `setupAudit`, where `open_file` is what `NewFileSink` does; `none` is the nil publisher
unfoldable pub setup_audit :
    {W : Type 0}
    → (String → W → Option Error × W)
    → ServerConfig
    → W
    → Result (Option (List Observer)) × W
unfolding http_observers
setup_audit open_file cfg w =
    if cfg.audit_file == "" && (cfg.audit_url == "")
    then (ok none, w)
    else if cfg.audit_file == ""
    then (ok (some (http_observers cfg)), w)
    else let (failure, w') = open_file cfg.audit_file w in
      elim failure [
        | some e ↦ (err e, w')
        | none ↦ (ok (some (file_sink cfg.audit_file ∷ http_observers cfg)), w')
      ]

module _ {B W : Type 0} (range : Dict ℕ → Dict ℕ) (json : Codec B) (fs : FileSystem B W) where
  -- The storage in memory at the start; the error of `Load` is logged.
  unfoldable pub start : ServerConfig → W → Option Error × MemStorage × W
  start cfg w =
      if cfg.restore && not (cfg.file_storage_path == "")
      then load json fs mem_storage cfg.file_storage_path new_mem_storage w
      else (none, new_mem_storage, w)

  -- `onShutdown`, if there is one; the error of `Save` is logged
  unfoldable pub on_shutdown : ServerConfig → MemStorage → W → Option Error × MemStorage × W
  on_shutdown cfg s w =
      if cfg.file_storage_path == ""
      then (none, s, w)
      else save range json fs mem_storage cfg.file_storage_path s w

  -- What the parts of the running server do when they are stopped. The error of `Shutdown` is that of the
  -- deadline; `graceful_stop` says whether it ends before the deadline. Nothing waits for the goroutine of
  -- the periodic save, nor for a request that outlives the deadline: `late` has the snapshots whose `Save`
  -- ends after the one of `onShutdown`, and is empty if there is no file.
  pub record Running : Type 0 where
    pub stop_http : MemStorage × W → Option Error × (MemStorage × W)
    pub stop_pprof : MemStorage × W → Option Error × (MemStorage × W)
    pub graceful_stop : MemStorage × W → Bool × (MemStorage × W)
    pub force_stop : MemStorage × W → MemStorage × W
    pub late : List MemStorage
    pub close_audit : W → W
    pub has_audit : Bool

  stop_grpc : Running → Bool × (MemStorage × W) → MemStorage × W
  stop_grpc running (true, p) = p
  stop_grpc running (false, p) = running.force_stop p

  -- the servers, stopped in the order of `main`; the errors of the deadline are logged
  unfoldable pub drained : Running → ServerConfig → MemStorage × W → MemStorage × W
  unfolding stop_grpc
  drained running cfg p =
      let p1 = (running.stop_http p).1 in
      let p2 = if cfg.pprof_addr == "" then p1 else (running.stop_pprof p1).1 in
      if cfg.grpc_address == "" then p2 else stop_grpc running (running.graceful_stop p2)

  -- the saves of earlier snapshots that end last; their errors are logged
  late_saves : ServerConfig → List MemStorage → W → W
  late_saves cfg [] w = w
  late_saves cfg (s ∷ ss) w =
      late_saves cfg ss (save range json fs mem_storage cfg.file_storage_path s w).2

  after_save :
      Running → ServerConfig → Option Error × MemStorage × W → Option Error × MemStorage × W
  unfolding late_saves
  after_save running cfg (e, s, w) =
      let w' = late_saves cfg running.late w in
      (e, s, (if running.has_audit then running.close_audit w' else w'))

  -- `main` after `<-ctx.Done()`, in the mode without a database
  unfoldable pub shutdown : Running → ServerConfig → MemStorage × W → Option Error × MemStorage × W
  unfolding after_save
  shutdown running cfg p =
      let (s, w) = drained running cfg p in after_save running cfg (on_shutdown cfg s w)
