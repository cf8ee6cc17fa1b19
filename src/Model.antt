-- ===== src/Model.antt =====
-- internal/model/metrics.go and reset.gen.go: the metric that server and agent exchange.
use metrics_alerting_service.Prelude.{
  ℕ, ◌+◌, ◌/◌, ◌%◌, ◌^◌, String, Bool, not, Option, none, some, eqb,
}

-- float64 as its 64 bits of IEEE 754. The server copies, prints and parses such values, and never
-- computes with them.
abbrev pub Float64 : Type 0
Float64 = ℕ

-- int64 as its 64 bits, two's complement.
abbrev pub Int64 : Type 0
Int64 = ℕ

-- The wrap-around addition of int64.
unfoldable pub add_int64 : Int64 → Int64 → Int64
add_int64 a b = (a + b) % 2 ^ 64

-- An exponent of all ones is an infinity or a NaN.
unfoldable pub is_finite : Float64 → Bool
is_finite v = not (eqb (v / 2 ^ 52 % 2048) 2047)

abbrev pub counter : String
counter = "counter"

abbrev pub gauge : String
gauge = "gauge"

-- A pointer that may be nil is an `Option`.
pub record Metrics : Type 0 where
  pub id : String
  pub m_type : String
  pub delta : Option Int64
  pub value : Option Float64
  pub hash : String

abbrev pub zeroed : Option ℕ → Option ℕ
zeroed none = none
zeroed (some _) = some 0

-- `Reset` writes 0 through a pointer that is set, and leaves nil alone.
unfoldable pub reset : Metrics → Metrics
reset m = record { id = ""; m_type = ""; delta = zeroed m.delta; value = zeroed m.value; hash = "" }
