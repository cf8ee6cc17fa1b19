-- ===== src/File.antt =====
-- internal/repository/file/storage.go: `Save`, `Load` and `SyncStorage`. The file system, the JSON
-- codec and the order in which `range` goes through a map are parameters.
pub mod Laws
pub mod Save
pub mod Load
pub mod RoundTrip
pub mod Sync
mod Tests
pub mod Example
use metrics_alerting_service.Prelude.{
  ℕ, String, Option, none, some, List, [], ◌∷◌, ◌++◌, map, ◌==◌, if◌then◌else◌,
}
use metrics_alerting_service.Dict.{Dict}
use metrics_alerting_service.Model.{Float64, Int64, Metrics, gauge, counter}
use metrics_alerting_service.Errors.{Error, Result, ok, err}
use metrics_alerting_service.Repository.{Storage}

-- `B` is the type of byte strings. The functions of `os` and `path/filepath` that are called. A file that `CreateTemp` opened is
-- known by its name.
pub record FileSystem (B W : Type 0) : Type 0 where
  pub dir : String → String
  pub create_temp : String → W → Result String × W
  pub write : String → B → W → Option Error × W
  pub close : String → W → Option Error × W
  pub remove : String → W → Option Error × W
  pub rename : String → String → W → Option Error × W
  pub read_file : String → W → Result B × W

-- `json.MarshalIndent` and `json.Unmarshal` at a list of metrics.
pub record Codec (B : Type 0) : Type 0 where
  pub marshal : List Metrics → Result B
  pub unmarshal : B → Result (List Metrics)

unfoldable pub gauge_entry : String × Float64 → Metrics
gauge_entry (name, v) = record {
  id = name;
  m_type = gauge;
  delta = none;
  value = some v;
  hash = "";
}

unfoldable pub counter_entry : String × Int64 → Metrics
counter_entry (name, d) = record {
  id = name;
  m_type = counter;
  delta = some d;
  value = none;
  hash = "";
}

-- the two loops at the head of `Save`, over the maps in the order of `range`
unfoldable pub snapshot : Dict Float64 → Dict Int64 → List Metrics
snapshot gauges counters = map gauge_entry gauges ++ map counter_entry counters

module _ {B W : Type 0} (fs : FileSystem B W) where
  after_close : String → String → Option Error × W → Option Error × W
  after_close tmp filename (some e, w) = (some e, (fs.remove tmp w).1)
  after_close tmp filename (none, w) = fs.rename tmp filename w

  after_write : String → String → Option Error × W → Option Error × W
  unfolding after_close
  after_write tmp filename (some e, w) = (some e, (fs.remove tmp (fs.close tmp w).1).1)
  after_write tmp filename (none, w) = after_close tmp filename (fs.close tmp w)

  after_create : B → String → Result String × W → Option Error × W
  unfolding after_write
  after_create contents filename (err e, w) = (some e, w)
  after_create contents filename (ok tmp, w) = after_write tmp filename (fs.write tmp contents w)

  -- the second half of `Save`: a temporary file is written and renamed
  unfoldable pub replace_file : String → B → W → Option Error × W
  unfolding after_create
  replace_file filename contents w =
      after_create contents filename (fs.create_temp (fs.dir filename) w)

module _ {B S W : Type 0} (range : Dict ℕ → Dict ℕ) (json : Codec B) (fs : FileSystem B W) where
  save_encoded : String → Result B → S → W → Option Error × S × W
  save_encoded filename (err e) s w = (some e, s, w)
  save_encoded filename (ok contents) s w =
      let (e, w') = replace_file fs filename contents w in (e, s, w')

  unfoldable pub save : Storage S → String → S → W → Option Error × S × W
  unfolding save_encoded snapshot
  save repo filename s w =
      let (gauges, counters, s') = repo.get_all s in
      save_encoded filename (json.marshal (snapshot (range gauges) (range counters))) s' w

module _ {S : Type 0} (repo : Storage S) where
  load_gauge : String → Option Float64 → S → Option Error × S
  load_gauge name none s = (none, s)
  load_gauge name (some v) s = repo.update_gauge name v s

  load_counter : String → Option Int64 → S → Option Error × S
  load_counter name none s = (none, s)
  load_counter name (some d) s = repo.update_counter name d s

  load_metric : Metrics → S → Option Error × S
  unfolding load_gauge load_counter
  load_metric m s =
      if m.m_type == gauge
      then load_gauge m.id m.value s
      else if m.m_type == counter
      then load_counter m.id m.delta s
      else (none, s)

  -- the rest of the loop runs unless an update failed
  unless_error : Option Error × S → (S → Option Error × S) → Option Error × S
  unless_error (some e, s) rest = (some e, s)
  unless_error (none, s) rest = rest s

  unfoldable pub load_metrics : List Metrics → S → Option Error × S
  unfolding load_metric unless_error
  load_metrics [] s = (none, s)
  load_metrics (m ∷ ms) s = unless_error (load_metric m s) (load_metrics ms)

  load_decoded : Result (List Metrics) → S → Option Error × S
  unfolding load_metrics
  load_decoded (err e) s = (some e, s)
  load_decoded (ok ms) s = load_metrics ms s

  load_read : {B : Type 0} → Codec B → Result B → S → Option Error × S
  unfolding load_decoded
  load_read json (err e) s = (some e, s)
  load_read json (ok contents) s = load_decoded (json.unmarshal contents) s

module _ {B S W : Type 0} (json : Codec B) (fs : FileSystem B W) (repo : Storage S) where
  unfoldable pub load : String → S → W → Option Error × S × W
  unfolding load_read
  load filename s w =
      let (r, w') = fs.read_file filename w in let (e, s') = load_read repo json r s in (e, s', w')
