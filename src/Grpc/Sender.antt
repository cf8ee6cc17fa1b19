-- ===== src/Grpc/Sender.antt =====
-- internal/agent/grpcsender.go: the sender; the call of the gRPC client is a parameter.
use metrics_alerting_service.Prelude.{
  ℕ, String, Bool, false, Option, none, some, List, [], ◌∷◌, ◌==◌, eqb, if◌then◌else◌,
}
use metrics_alerting_service.Model.{Metrics}
use metrics_alerting_service.Errors.{Error, grpc_status}
use metrics_alerting_service.Retry.{retry}
use metrics_alerting_service.Grpc.{Metric, to_proto}

unfoldable pub is_retriable_grpc_error : Error → Bool
is_retriable_grpc_error (grpc_status code) = eqb code 14
is_retriable_grpc_error _ = false

-- the metadata `x-real-ip`, if it is set
outgoing_ip : String → Option String
outgoing_ip real_ip = if real_ip == "" then none else some real_ip

module _ {S : Type 0} (call : Option String → List Metric → S → Option Error × S)
    (wait : ℕ → S → Bool × S) where
  -- `GRPCSender.Send`; the error of `Do` is logged
  unfoldable pub send : String → List Metrics → S → S
  unfolding outgoing_ip is_retriable_grpc_error retry
  send real_ip [] s = s
  send real_ip (m ∷ ms) s =
      (retry (call (outgoing_ip real_ip) (to_proto (m ∷ ms))) is_retriable_grpc_error wait s).1
