-- ===== src/File/Sync/Unsupported.antt =====
-- A gauge that JSON cannot hold (an infinity or a NaN, which `strconv.ParseFloat` accepts) stops
-- every save.
use metrics_alerting_service.Prelude.{ℕ, String, ◌≡◌, ◌∙◌, false, some, [], ◌∷◌, eq_iff, arith}
use metrics_alerting_service.Dict.{Dict, get}
use metrics_alerting_service.Model.{Float64, Int64, is_finite}
use metrics_alerting_service.Repository.Mem.{MemStorage, mem_storage, add_counter}
use metrics_alerting_service.File.{FileSystem, Codec, gauge_entry, snapshot, save}
use metrics_alerting_service.File.Laws.{CodecLaws, IsRange, are_encodable}
use metrics_alerting_service.File.Sync.{sync_update_counter}

not_encodable :
    (k : String) (v : Float64) (gs cs : Dict ℕ)
    → get k gs ≡ some v
    → is_finite v ≡ false
    → are_encodable (snapshot gs cs) ≡ false
unfolding get snapshot gauge_entry
not_encodable k v [] cs h f = cc
not_encodable k v ((j, u) ∷ gs) cs h f = ground (arith, not_encodable k v gs cs, eq_iff j k)

module _ {B W : Type 0} (range : Dict ℕ → Dict ℕ) (json : Codec B) (fs : FileSystem B W)
    (is_range : IsRange range) (json_laws : CodecLaws json) where
  -- While one gauge is an infinity or a NaN, `Save` returns the encoder's error and writes nothing.
  save-unsupported :
      (f k : String) (v : Float64) (s : MemStorage) (w : W)
      → get k s.gauges ≡ some v
      → is_finite v ≡ false
      → save range json fs mem_storage f s w ≡ (some json_laws.unsupported, s, w)
  unfolding save mem_storage
  save-unsupported f k v s w h nf = rw (
      json_laws.marshal_err (snapshot (range s.gauges) (range s.counters))
        (not_encodable k v (range s.gauges) (range s.counters) ((is_range s.gauges).same k ∙ h) nf))

  -- While a gauge that is stored in memory is an infinity or a NaN, `SyncStorage.UpdateCounter` of any
  -- name returns the encoder's error, although the counter has been increased in memory, and no file is
  -- written.
  pub sync_update_counter-unsupported :
      (f k name : String) (v : Float64) (d : Int64) (s : MemStorage) (w : W)
      → get k s.gauges ≡ some v
      → is_finite v ≡ false
      → sync_update_counter range json fs mem_storage f name d (s, w)
        ≡ (some json_laws.unsupported, (add_counter name d s, w))
  unfolding sync_update_counter mem_storage add_counter
  sync_update_counter-unsupported f k name v d s w h nf =
      rw (save-unsupported f k v (add_counter name d s) w h nf)
