-- ===== src/File/Sync/Durable.antt =====
-- What an update of `SyncStorage` that reports no error guarantees after a restart.
use metrics_alerting_service.Prelude.{ℕ, String, ◌≡◌, refl, none}
use metrics_alerting_service.Dict.{Dict, get}
use metrics_alerting_service.Errors.{Result, ok, err}
use metrics_alerting_service.Repository.Mem.{MemStorage, mem_storage, new_mem_storage, add_counter}
use metrics_alerting_service.File.{FileSystem, Codec, snapshot, save, save_encoded, load}
use metrics_alerting_service.File.Laws.{FileSystemLaws, CodecLaws, IsRange}
use metrics_alerting_service.File.RoundTrip.{IsInRange, load-save}
use metrics_alerting_service.File.Sync.{sync_update_counter}

module _ {B W : Type 0} (range : Dict ℕ → Dict ℕ) (json : Codec B) (fs : FileSystem B W) where
  save_encoded-state :
      (f : String) (x : Result B) (s : MemStorage) (w : W)
      → (save_encoded range json fs f x s w).1 ≡ s
  unfolding save_encoded
  save_encoded-state f (err e) s w = refl
  save_encoded-state f (ok b) s w = refl

  -- a save leaves the storage in memory as it was
  save-state : (f : String) (s : MemStorage) (w : W) → (save range json fs mem_storage f s w).1 ≡ s
  unfolding save mem_storage
  save-state f s w =
      save_encoded-state f (json.marshal (snapshot (range s.gauges) (range s.counters))) s w

  -- The file, read into an empty storage, gives the gauges and counters of `s`.
  abbrev pub Restores : String → MemStorage → W → Type 0
  Restores f s w =
      ((load json fs mem_storage f new_mem_storage w).0 ≡ none)
      × ((k : String)
          → (get k (load json fs mem_storage f new_mem_storage w).1.gauges ≡ get k s.gauges)
            × (get k (load json fs mem_storage f new_mem_storage w).1.counters ≡ get k s.counters))

module _ {B W : Type 0} (range : Dict ℕ → Dict ℕ) (json : Codec B) (fs : FileSystem B W)
    (is_range : IsRange range) (json_laws : CodecLaws json) (fs_laws : FileSystemLaws fs) where
  save-Restores :
      (f : String) (s : MemStorage) (w : W)
      → IsInRange s.counters
      → (save range json fs mem_storage f s w).0 ≡ none
      → Restores range json fs f
          (save range json fs mem_storage f s w).1
          (save range json fs mem_storage f s w).2
  save-Restores f s w h e =
      rw (save-state range json fs f s w)
        (load-save range json fs is_range json_laws fs_laws f s w h e)

  -- When `SyncStorage.UpdateCounter` returns no error, and the counters then in memory are 64-bit
  -- values, memory holds the update and a restart that loads the file finds all that is in memory.
  pub sync_update_counter-durable :
      (f name : String) (x : ℕ) (s : MemStorage) (w : W)
      → IsInRange (add_counter name x s).counters
      → (sync_update_counter range json fs mem_storage f name x (s, w)).0 ≡ none
      → let r = (sync_update_counter range json fs mem_storage f name x (s, w)).1 in
        (r.0 ≡ add_counter name x s) × Restores range json fs f r.0 r.1
  unfolding sync_update_counter mem_storage add_counter
  sync_update_counter-durable f name x s w h e = (
    save-state range json fs f (add_counter name x s) w,
    save-Restores f (add_counter name x s) w h e,
  )
