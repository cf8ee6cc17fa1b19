-- ===== src/Repository.antt =====
-- internal/repository/storage.go: the interface `Storage`, which the service and the file storage
-- stand on. A method takes the state of the storage and returns its result with the new state.
pub mod Mem
pub mod Laws
use metrics_alerting_service.Prelude.{String, Option, List}
use metrics_alerting_service.Dict.{Dict}
use metrics_alerting_service.Model.{Float64, Int64, Metrics}
use metrics_alerting_service.Errors.{Error}

pub record Storage (S : Type 0) : Type 0 where
  pub update_gauge : String → Float64 → S → Option Error × S
  pub update_counter : String → Int64 → S → Option Error × S
  pub update_batch : List Metrics → S → Option Error × S
  pub get_gauge : String → S → Option Float64 × S
  pub get_counter : String → S → Option Int64 × S
  pub get_all : S → Dict Float64 × Dict Int64 × S
  pub ping : S → Option Error × S
