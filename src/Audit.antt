-- ===== src/Audit.antt =====
-- internal/audit/event.go and reset.gen.go: one event of the audit; its publisher and its two sinks.
pub mod Publisher
pub mod FileSink
pub mod HttpSink
use metrics_alerting_service.Prelude.{String, List, []}
use metrics_alerting_service.Model.{Int64}

pub record Event : Type 0 where
  pub timestamp : Int64
  pub metrics : List String
  pub ip_address : String

-- `e.Metrics[:0]` keeps the array and drops the elements
unfoldable pub reset_event : Event → Event
reset_event e = record { timestamp = 0; metrics = []; ip_address = "" }
