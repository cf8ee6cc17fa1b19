-- ===== src/Grpc/Convert.antt =====
-- What the agent's conversion sends is what the server's conversion finds.
use metrics_alerting_service.Prelude.{
  ◌≡◌, refl, ◌⊎◌, inl, inr, none, some, List, [], ◌∷◌, ℕ, All, arith, eq_iff,
}
use metrics_alerting_service.Model.{Metrics, gauge, counter}
use metrics_alerting_service.Errors.{ok}
use metrics_alerting_service.Grpc.{
  Metric, unrecognized, to_proto, to_proto_one, to_model, to_models,
}

-- The metrics that the agent's collector makes: a type and its value, and nothing else.
abbrev pub IsPlain : Metrics → Type 0
IsPlain m =
    (v : ℕ) × ((m ≡ record { id = m.id; m_type = gauge; delta = none; value = some v; hash = "" })
      ⊎ (m ≡ record { id = m.id; m_type = counter; delta = some v; value = none; hash = "" }))

to_model-to_proto_one : (m : Metrics) → IsPlain m → to_model (to_proto_one m) ≡ ok m
unfolding to_model to_proto_one
to_model-to_proto_one m (v, inl e) = ground (arith, eq_iff m.m_type gauge)
to_model-to_proto_one m (v, inr e) =
    ground (arith, eq_iff m.m_type gauge, eq_iff m.m_type counter, eq_iff gauge counter)

-- A list of plain metrics goes through protobuf and comes out the same.
pub to_models-to_proto : (ms : List Metrics) → All IsPlain ms → to_models (to_proto ms) ≡ ok ms
unfolding to_models to_proto
to_models-to_proto [] h = refl
to_models-to_proto (m ∷ ms) h = rw (to_model-to_proto_one m h.0) (rw (to_models-to_proto ms h.1))

-- Some message of the list has a type that the enum does not have.
abbrev pub HasUnrecognized : List Metric → Type 0
HasUnrecognized [] = ⊥
HasUnrecognized (m ∷ ms) = ((n : ℕ) × (m.type ≡ unrecognized n)) ⊎ HasUnrecognized ms
