-- ===== src/File/Sync.antt =====
-- `SyncStorage`: every update of the storage below is followed by a save.
pub mod Unsupported
pub mod Durable
use metrics_alerting_service.Prelude.{ℕ, String, Option, none, some, List}
use metrics_alerting_service.Dict.{Dict}
use metrics_alerting_service.Model.{Float64, Int64, Metrics}
use metrics_alerting_service.Errors.{Error}
use metrics_alerting_service.Repository.{Storage}
use metrics_alerting_service.File.{FileSystem, Codec, save}

module _ {B S W : Type 0} (range : Dict ℕ → Dict ℕ) (json : Codec B) (fs : FileSystem B W)
    (repo : Storage S) (file_path : String) where
  saved : Option Error × S × W → Option Error × (S × W)
  saved (e, s, w) = (e, (s, w))

  -- `if err != nil { return err }; return Save(…)`
  then_save : W → Option Error × S → Option Error × (S × W)
  unfolding saved
  then_save w (some e, s) = (some e, (s, w))
  then_save w (none, s) = saved (save range json fs repo file_path s w)

  -- `UpdateBatch` logs the error of `Save` and returns nil
  then_save_logged : W → Option Error × S → Option Error × (S × W)
  unfolding saved
  then_save_logged w (some e, s) = (some e, (s, w))
  then_save_logged w (none, s) = (none, (saved (save range json fs repo file_path s w)).1)

  unfoldable pub sync_update_gauge : String → Float64 → S × W → Option Error × (S × W)
  unfolding then_save
  sync_update_gauge name value (s, w) = then_save w (repo.update_gauge name value s)

  unfoldable pub sync_update_counter : String → Int64 → S × W → Option Error × (S × W)
  unfolding then_save
  sync_update_counter name value (s, w) = then_save w (repo.update_counter name value s)

  unfoldable pub sync_update_batch : List Metrics → S × W → Option Error × (S × W)
  unfolding then_save_logged
  sync_update_batch metrics (s, w) = then_save_logged w (repo.update_batch metrics s)

  -- the reads are those of the embedded storage
  with_files {ℓ} : {A : Type ℓ} → W → A × S → A × (S × W)
  with_files w (a, s) = (a, (s, w))

  with_files_all : W → Dict Float64 × Dict Int64 × S → Dict Float64 × Dict Int64 × (S × W)
  with_files_all w (gs, cs, s) = (gs, cs, (s, w))

  unfoldable pub sync_storage : Storage (S × W)
  unfolding sync_update_gauge sync_update_counter sync_update_batch with_files with_files_all
  sync_storage = record {
    update_gauge = sync_update_gauge;
    update_counter = sync_update_counter;
    update_batch = sync_update_batch;
    get_gauge = λ k p. with_files p.1 (repo.get_gauge k p.0);
    get_counter = λ k p. with_files p.1 (repo.get_counter k p.0);
    get_all = λ p. with_files_all p.1 (repo.get_all p.0);
    ping = λ p. with_files p.1 (repo.ping p.0);
  }
