-- ===== src/Grpc.antt =====
-- internal/grpcserver/server.go and the conversion of internal/agent/grpcsender.go: the same batches
-- as messages of protobuf.
pub mod Convert
pub mod Transport
pub mod Sender
mod Tests
use metrics_alerting_service.Prelude.{
  ℕ, String, Option, none, some, List, [], ◌∷◌, map, ◌==◌, if◌then◌else◌, or_else,
}
use metrics_alerting_service.Model.{Float64, Int64, Metrics, gauge, counter}
use metrics_alerting_service.Errors.{
  Error, Result, ok, err, ◌>>=◌, empty_id, invalid_type, missing_value, missing_delta, empty_batch,
  unknown_type,
}
use metrics_alerting_service.Repository.{Storage}
use metrics_alerting_service.Service

-- The enum of the message `Metric` (GAUGE = 0, COUNTER = 1); another number may come over the wire.
pub data MType : Type 0 where
  gauge_type : MType
  counter_type : MType
  unrecognized : ℕ → MType

-- The message; a field that is not set reads as zero.
pub record Metric : Type 0 where
  pub id : String
  pub type : MType
  pub delta : Int64
  pub value : Float64

-- The status codes that the program uses.
pub data Code : Type 0 where
  success invalid_argument internal permission_denied unavailable : Code

-- agent: `toProto`, where a builder starts with the type GAUGE and with zeros
to_proto_one : Metrics → Metric
to_proto_one m =
    if m.m_type == gauge
    then record { id = m.id; type = gauge_type; delta = 0; value = or_else m.value 0 }
    else if m.m_type == counter
    then record { id = m.id; type = counter_type; delta = or_else m.delta 0; value = 0 }
    else record { id = m.id; type = gauge_type; delta = 0; value = 0 }

unfoldable pub to_proto : List Metrics → List Metric
unfolding to_proto_one
to_proto ms = map to_proto_one ms

to_model_typed : MType → Metric → Result Metrics
to_model_typed gauge_type m =
    ok (record { id = m.id; m_type = gauge; delta = none; value = some m.value; hash = "" })
to_model_typed counter_type m =
    ok (record { id = m.id; m_type = counter; delta = some m.delta; value = none; hash = "" })
to_model_typed (unrecognized n) m = err unknown_type

unfoldable pub to_model : Metric → Result Metrics
unfolding to_model_typed
to_model m = to_model_typed m.type m

-- the loop of `UpdateMetrics`: the first bad type ends it
unfoldable pub to_models : List Metric → Result (List Metrics)
unfolding to_model
to_models [] = ok []
to_models (m ∷ ms) = do converted ← to_model m; rest ← to_models ms; ok (converted ∷ rest)

-- `mapError`
unfoldable pub map_error : Error → Code
map_error unknown_type = invalid_argument
map_error empty_batch = invalid_argument
map_error invalid_type = invalid_argument
map_error empty_id = invalid_argument
map_error missing_value = invalid_argument
map_error missing_delta = invalid_argument
map_error _ = internal

module _ {S : Type 0} (repo : Storage S) where
  update_reply : Option Error × S → Code × S
  unfolding map_error
  update_reply (some e, s) = (map_error e, s)
  update_reply (none, s) = (success, s)

  update_converted : Result (List Metrics) → S → Code × S
  unfolding update_reply map_error
  update_converted (err e) s = (map_error e, s)
  update_converted (ok ms) s = update_reply (Service.update_batch repo ms s)

  -- `UpdateMetrics`: the status code, and the storage after the call
  unfoldable pub update_metrics : List Metric → S → Code × S
  unfolding update_converted
  update_metrics req s = update_converted (to_models req) s
