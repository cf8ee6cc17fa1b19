-- ===== src/File/RoundTrip.antt =====
-- What `Save` wrote, `Load` reads back.
use metrics_alerting_service.Prelude.{
  ℕ, ◌<◌, ◌^◌, ◌%◌, ◌+◌, String, ◌≡◌, refl, ap, ◌∙◌, Option, none, some, List, [], ◌∷◌, ◌++◌, map,
  eq_iff, if◌then◌else◌, or_else, arith,
}
use metrics_alerting_service.Dict.{Dict, get, Enumerates, HasUniqueKeys}
use metrics_alerting_service.Model.{Metrics, gauge, counter}
use metrics_alerting_service.Repository.Mem.{
  MemStorage, mem_storage, new_mem_storage, apply_metrics, update_batch,
}
use metrics_alerting_service.Repository.Mem.Batch.{
  last_gauge, mentions, total, gauge-apply_metrics, counter-apply_metrics, is_set, or_old,
}
use metrics_alerting_service.Errors.{Result, ok}
use metrics_alerting_service.File.{
  FileSystem, Codec, gauge_entry, counter_entry, snapshot, load_read, save, load,
}
use metrics_alerting_service.File.Laws.{FileSystemLaws, CodecLaws, IsRange}
use metrics_alerting_service.File.Save.{encoded, save-ok}
use metrics_alerting_service.File.Load.{load_metrics-eq-update_batch}

module _ (k : String) where
  last_gauge-counters : (cs : Dict ℕ) → last_gauge k (map counter_entry cs) ≡ none
  unfolding last_gauge counter_entry
  last_gauge-counters [] = refl
  last_gauge-counters ((j, d) ∷ cs) = ground (arith, last_gauge-counters cs, eq_iff counter gauge)

  last_gauge-snapshot :
      (gs cs : Dict ℕ) → HasUniqueKeys gs → last_gauge k (snapshot gs cs) ≡ get k gs
  unfolding snapshot last_gauge gauge_entry get
  last_gauge-snapshot [] cs u = last_gauge-counters cs
  last_gauge-snapshot ((j, v) ∷ gs) cs u = ground (arith, last_gauge-snapshot gs cs u.1, eq_iff j k)

  mentions-gauges :
      (gs : Dict ℕ) (ms : List Metrics) → mentions k (map gauge_entry gs ++ ms) ≡ mentions k ms
  unfolding mentions gauge_entry
  mentions-gauges [] ms = refl
  mentions-gauges ((j, v) ∷ gs) ms = ground (arith, mentions-gauges gs ms, eq_iff gauge counter)

  total-gauges : (gs : Dict ℕ) (ms : List Metrics) → total k (map gauge_entry gs ++ ms) ≡ total k ms
  unfolding total gauge_entry
  total-gauges [] ms = refl
  total-gauges ((j, v) ∷ gs) ms = ground (arith, total-gauges gs ms, eq_iff gauge counter)

  mentions-counters : (cs : Dict ℕ) → mentions k (map counter_entry cs) ≡ is_set (get k cs)
  unfolding mentions counter_entry get
  mentions-counters [] = refl
  mentions-counters ((j, d) ∷ cs) = ground (arith, mentions-counters cs, eq_iff j k)

  total-counters :
      (cs : Dict ℕ) → HasUniqueKeys cs → total k (map counter_entry cs) ≡ or_else (get k cs) 0
  unfolding total counter_entry get
  total-counters [] u = refl
  total-counters ((j, d) ∷ cs) u = ground (arith, total-counters cs u.1, eq_iff j k)

-- The values of the counters are bit patterns of 64 bits.
abbrev pub IsInRange : Dict ℕ → Type 0
IsInRange cs = (k : String) (d : ℕ) → get k cs ≡ some d → d < 2 ^ 64

or_old-none : (o : Option ℕ) → or_old o none ≡ o
or_old-none none = refl
or_old-none (some v) = refl

mod_in_range :
    (o : Option ℕ)
    → ((d : ℕ) → o ≡ some d → d < 2 ^ 64)
    → (if is_set o then some ((0 + or_else o 0) % 2 ^ 64) else none) ≡ o
mod_in_range none h = refl
mod_in_range (some d) h = ap some (omega (arith, h d refl))

-- A storage restored from the entries of `s` reads as `s` does.
pub restored :
    (s : MemStorage) (gs cs : Dict ℕ)
    → Enumerates gs s.gauges
    → Enumerates cs s.counters
    → IsInRange s.counters
    → (k : String)
    → let r = apply_metrics (snapshot gs cs) new_mem_storage in
      (get k r.gauges ≡ get k s.gauges) × (get k r.counters ≡ get k s.counters)
unfolding new_mem_storage get snapshot
restored s gs cs eg ec range k = (
  gauge-apply_metrics k (snapshot gs cs) new_mem_storage
      ∙ rw (last_gauge-snapshot k gs cs eg.unique, eg.same k) (or_old-none (get k s.gauges)),
  counter-apply_metrics k (snapshot gs cs) new_mem_storage
      ∙ rw
          (
            mentions-gauges k gs (map counter_entry cs),
            mentions-counters k cs,
            total-gauges k gs (map counter_entry cs),
            total-counters k cs ec.unique,
            ec.same k,
          )
          (mod_in_range (get k s.counters) (range k)),
)

module _ {B W : Type 0} (range : Dict ℕ → Dict ℕ) (json : Codec B) (fs : FileSystem B W)
    (is_range : IsRange range) (json_laws : CodecLaws json) (fs_laws : FileSystemLaws fs) where
  load_read-encoded :
      (s : MemStorage) (b : B) (r : Result B)
      → encoded range json fs fs_laws mem_storage s ≡ ok b
      → r ≡ ok b
      → load_read mem_storage json r new_mem_storage
        ≡ (none, apply_metrics (snapshot (range s.gauges) (range s.counters)) new_mem_storage)
  unfolding load_read mem_storage update_batch
  load_read-encoded s b r e h =
      rw (h, json_laws.unmarshal-marshal _ b e)
        (load_metrics-eq-update_batch (snapshot (range s.gauges) (range s.counters))
          new_mem_storage)

  -- After a `Save` with no error, `Load` reads the storage from any state with that file.
  pub load-saved :
      (f : String) (s : MemStorage) (w v : W)
      → IsInRange s.counters
      → (save range json fs mem_storage f s w).0 ≡ none
      → fs_laws.contents v f ≡ fs_laws.contents (save range json fs mem_storage f s w).2 f
      → let r = load json fs mem_storage f new_mem_storage v in
        (r.0 ≡ none)
        × ((k : String)
            → (get k r.1.gauges ≡ get k s.gauges) × (get k r.1.counters ≡ get k s.counters))
  unfolding load
  load-saved f s w v in_range h q =
      let (b, e, c) = save-ok range json fs fs_laws mem_storage f s w h in
      rw (load_read-encoded s b (fs.read_file f v).0 e (fs_laws.read_file_lem f b v (q ∙ c))) (
        refl,
        restored s (range s.gauges) (range s.counters) (is_range s.gauges) (is_range s.counters)
            in_range,
      )

  -- After a `Save` with no error of a storage in memory whose counters are 64-bit values, `Load`
  -- into an empty storage has no error, and every gauge and every counter reads as before.
  pub load-save :
      (f : String) (s : MemStorage) (w : W)
      → IsInRange s.counters
      → (save range json fs mem_storage f s w).0 ≡ none
      → let r =
          load json fs mem_storage f new_mem_storage (save range json fs mem_storage f s w).2 in
        (r.0 ≡ none)
        × ((k : String)
            → (get k r.1.gauges ≡ get k s.gauges) × (get k r.1.counters ≡ get k s.counters))
  load-save f s w in_range h =
      load-saved f s w (save range json fs mem_storage f s w).2 in_range h refl
