-- ===== src/Service.antt =====
-- internal/service/metrics.go: validation, dispatch on the metric's type, and delegation to a
-- `Storage`. A Go method that returns a value and an error returns both here.
pub mod Accept
pub mod Update
mod Tests
use metrics_alerting_service.Prelude.{
  String, Option, none, some, List, [], ◌∷◌, ◌==◌, if◌then◌else◌,
}
use metrics_alerting_service.Dict.{Dict}
use metrics_alerting_service.Model.{Float64, Int64, Metrics, gauge, counter}
use metrics_alerting_service.Errors.{
  Error, metric_not_found, invalid_type, missing_value, missing_delta, empty_id, empty_batch,
}
use metrics_alerting_service.Repository.{Storage}

-- The functions of Go's `strconv` that the server calls.
pub record Strconv : Type 0 where
  pub format_float : Float64 → String
  pub format_int : Int64 → String
  pub parse_float : String → Option Float64
  pub parse_int : String → Option Int64

-- `val, ok := …; if !ok { return metric, ErrMetricNotFound }; metric.Value = &val`
found_gauge {ℓ} : {S : Type ℓ} → Metrics → Option Float64 × S → Metrics × Option Error × S
found_gauge m (none, s) = (m, some metric_not_found, s)
found_gauge m (some val, s) = (record m { value = some val }, none, s)

found_counter {ℓ} : {S : Type ℓ} → Metrics → Option Int64 × S → Metrics × Option Error × S
found_counter m (none, s) = (m, some metric_not_found, s)
found_counter m (some val, s) = (record m { delta = some val }, none, s)

-- the same for `GetValue`, which prints the value
found_text {ℓ} : {S : Type ℓ} → (Float64 → String) → Option Float64 × S → String × Option Error × S
found_text format (none, s) = ("", some metric_not_found, s)
found_text format (some val, s) = (format val, none, s)

module _ {S : Type 0} (repo : Storage S) where
  unfoldable pub update : String → String → Float64 → Int64 → S → Option Error × S
  update name m_type value delta s =
      if m_type == gauge
      then repo.update_gauge name value s
      else if m_type == counter
      then repo.update_counter name delta s
      else (some invalid_type, s)

  -- what follows the update in `UpdateJSON`: the value is read back, unless the update failed
  reread_gauge : Metrics → Option Error × S → Metrics × Option Error × S
  unfolding found_gauge
  reread_gauge m (some err, s) = (m, some err, s)
  reread_gauge m (none, s) = found_gauge m (repo.get_gauge m.id s)

  reread_counter : Metrics → Option Error × S → Metrics × Option Error × S
  unfolding found_counter
  reread_counter m (some err, s) = (m, some err, s)
  reread_counter m (none, s) = found_counter m (repo.get_counter m.id s)

  update_json_gauge : Metrics → Option Float64 → S → Metrics × Option Error × S
  unfolding reread_gauge
  update_json_gauge m none s = (m, some missing_value, s)
  update_json_gauge m (some value) s = reread_gauge m (repo.update_gauge m.id value s)

  update_json_counter : Metrics → Option Int64 → S → Metrics × Option Error × S
  unfolding reread_counter
  update_json_counter m none s = (m, some missing_delta, s)
  update_json_counter m (some delta) s = reread_counter m (repo.update_counter m.id delta s)

  unfoldable pub update_json : Metrics → S → Metrics × Option Error × S
  unfolding update_json_gauge update_json_counter
  update_json m s =
      if m.id == ""
      then (m, some empty_id, s)
      else if m.m_type == gauge
      then update_json_gauge m m.value s
      else if m.m_type == counter
      then update_json_counter m m.delta s
      else (m, some invalid_type, s)

  unfoldable pub get_value : Strconv → String → String → S → String × Option Error × S
  unfolding found_text
  get_value conv name m_type s =
      if m_type == gauge
      then found_text conv.format_float (repo.get_gauge name s)
      else if m_type == counter
      then found_text conv.format_int (repo.get_counter name s)
      else ("", some invalid_type, s)

  unfoldable pub get_json : Metrics → S → Metrics × Option Error × S
  unfolding found_gauge found_counter
  get_json m s =
      if m.id == ""
      then (m, some empty_id, s)
      else if m.m_type == gauge
      then found_gauge m (repo.get_gauge m.id s)
      else if m.m_type == counter
      then found_counter m (repo.get_counter m.id s)
      else (m, some invalid_type, s)

  unfoldable pub update_batch : List Metrics → S → Option Error × S
  update_batch [] s = (some empty_batch, s)
  update_batch (m ∷ ms) s = repo.update_batch (m ∷ ms) s

  unfoldable pub get_all : S → Dict Float64 × Dict Int64 × S
  get_all s = repo.get_all s

  unfoldable pub ping : S → Option Error × S
  ping s = repo.ping s
