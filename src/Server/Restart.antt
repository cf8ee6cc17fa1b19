-- ===== src/Server/Restart.antt =====
-- A server that was stopped starts again.
use metrics_alerting_service.Prelude.{
  ℕ, String, ◌≡◌, ◌≢◌, refl, sym, ap, ◌∙◌, true, Option, none, [], arith, eq_iff, if_elim,
}
use metrics_alerting_service.Dict.{Dict, get}
use metrics_alerting_service.Errors.{Error}
use metrics_alerting_service.Repository.Mem.{MemStorage, mem_storage, new_mem_storage}
use metrics_alerting_service.File.{FileSystem, Codec, save, load}
use metrics_alerting_service.File.Laws.{FileSystemLaws, CodecLaws, IsRange}
use metrics_alerting_service.File.RoundTrip.{IsInRange, load-saved}
use metrics_alerting_service.Config.Server.{ServerConfig}
use metrics_alerting_service.Server.{
  start, on_shutdown, Running, drained, late_saves, after_save, shutdown,
}

module _ {B W : Type 0} (range : Dict ℕ → Dict ℕ) (json : Codec B) (fs : FileSystem B W)
    (is_range : IsRange range) (json_laws : CodecLaws json) (fs_laws : FileSystemLaws fs) where
  -- Both storages answer alike to every query of one metric.
  abbrev pub Agrees : MemStorage → MemStorage → Type 0
  Agrees r s =
      (k : String) → (get k r.gauges ≡ get k s.gauges) × (get k r.counters ≡ get k s.counters)

  -- Closing the audit leaves the file of the storage alone.
  abbrev pub KeepsStorage : Running {B = B} {W = W} range json fs → String → Type 0
  KeepsStorage running path =
      (w : W) → fs_laws.contents (running.close_audit w) path ≡ fs_laws.contents w path

  after_save-file :
      (running : Running range json fs) (cfg : ServerConfig)
      → running.late ≡ []
      → KeepsStorage running cfg.file_storage_path
      → (r : Option Error × MemStorage × W)
      → fs_laws.contents (after_save range json fs running cfg r).2 cfg.file_storage_path
        ≡ fs_laws.contents r.2 cfg.file_storage_path
  unfolding after_save late_saves
  after_save-file running cfg last keeps (e, s, w) =
      if_elim
        (λ v. fs_laws.contents v cfg.file_storage_path ≡ fs_laws.contents w cfg.file_storage_path)
        running.has_audit (keeps (late_saves range json fs cfg running.late w) ∙ same) same
    where
      same :
          fs_laws.contents (late_saves range json fs cfg running.late w) cfg.file_storage_path
          ≡ fs_laws.contents w cfg.file_storage_path
      same =
          ap (λ ss. fs_laws.contents (late_saves range json fs cfg ss w) cfg.file_storage_path) last

  after_save-error :
      (running : Running range json fs) (cfg : ServerConfig) (r : Option Error × MemStorage × W)
      → (after_save range json fs running cfg r).0 ≡ r.0
  unfolding after_save
  after_save-error running cfg (e, s, w) = refl

  on_shutdown-save :
      (cfg : ServerConfig) (s : MemStorage) (w : W)
      → cfg.file_storage_path ≢ ""
      → on_shutdown range json fs cfg s w ≡ save range json fs mem_storage cfg.file_storage_path s w
  unfolding on_shutdown
  on_shutdown-save cfg s w n = ground (arith, eq_iff cfg.file_storage_path "")

  start-load :
      (cfg : ServerConfig) (w : W)
      → cfg.file_storage_path ≢ ""
      → cfg.restore ≡ true
      → start range json fs cfg w ≡ load json fs mem_storage cfg.file_storage_path new_mem_storage w
  unfolding start
  start-load cfg w n r = ground (arith, eq_iff cfg.file_storage_path "", r)

  -- In the mode without a database, with a file and with `Restore`, with counters that are 64-bit values
  -- and an audit whose closing leaves the file alone: if the save at the end has no error, and no other
  -- save ends after it (one of the periodic saves, for which nothing waits, or that of a request that
  -- outlives the deadline), then the next start has no error, and its storage answers every query as the
  -- storage did when the wait for the last server ended, by its stop or by the deadline.
  pub start-shutdown :
      (running : Running range json fs) (cfg : ServerConfig) (p : MemStorage × W)
      → cfg.file_storage_path ≢ ""
      → cfg.restore ≡ true
      → running.late ≡ []
      → KeepsStorage running cfg.file_storage_path
      → IsInRange (drained range json fs running cfg p).0.counters
      → (shutdown range json fs running cfg p).0 ≡ none
      → let r = start range json fs cfg (shutdown range json fs running cfg p).2 in
        (r.0 ≡ none) × Agrees r.1 (drained range json fs running cfg p).0
  unfolding shutdown
  start-shutdown running cfg p n r no_late keeps in_range h =
      let (s, w) = drained range json fs running cfg p in
      let e = on_shutdown-save cfg s w n in
      let last = (after_save range json fs running cfg (on_shutdown range json fs cfg s w)).2 in
      rw (start-load cfg last n r) (
        load-saved range json fs is_range json_laws fs_laws cfg.file_storage_path s w last in_range
          (ap (λ (x : Option Error × MemStorage × W). x.0) (sym e)
            ∙ sym (after_save-error running cfg (on_shutdown range json fs cfg s w))
            ∙ h)
          (after_save-file running cfg no_late keeps (on_shutdown range json fs cfg s w)
            ∙ ap (λ (x : Option Error × MemStorage × W). fs_laws.contents x.2 cfg.file_storage_path)
                e))
