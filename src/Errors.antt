-- ===== src/Errors.antt =====
-- The `error` values of the program: the sentinels of internal/service, internal/repository and
-- internal/grpcserver, which callers compare with `errors.Is`, and the errors that come from
-- libraries, which are only passed on.
use metrics_alerting_service.Prelude.{ℕ, String, List, ◌≡◌, refl}

pub data Error : Type 0 where
  metric_not_found invalid_type missing_value missing_delta empty_id empty_batch : Error
  no_db : Error
  -- the database's error with its five-character code, and any other error of pgx
  pg_error : String → Error
  no_rows : Error
  -- a status of gRPC, by the number of its code
  grpc_status : ℕ → Error
  unknown_type : Error
  sink_closed : Error
  malformed : Error
  -- a `*url.Error` of the HTTP client, and what the agent and the audit sink make of a status
  url_error server_unavailable request_rejected : Error
  http_status : ℕ → Error
  -- `context.Canceled` and `context.DeadlineExceeded`
  canceled deadline_exceeded : Error
  other : String → Error

-- Go's pair `(value, error)` of a call that gives one of the two.
pub data Result {ℓ} (V : Type ℓ) : Type ℓ where
  err : Error → Result V
  ok : V → Result V

-- A text or a message on the wire.
abbrev pub Bytes : Type 0
Bytes = List ℕ

-- `if err != nil { return err }` between two calls.
infixl 10 ◌>>=◌
abbrev pub ◌>>=◌ {κ ℓ} : {V : Type κ} {U : Type ℓ} → Result V → (V → Result U) → Result U
err e >>= next = err e
ok v >>= next = next v

pub >>=-eq-ok {κ ℓ} :
    {V : Type κ} {U : Type ℓ} (r : Result V) (next : V → Result U) {u : U}
    → (r >>= next) ≡ ok u
    → (v : V) × (r ≡ ok v) × (next v ≡ ok u)
>>=-eq-ok (err e) next h = cc
>>=-eq-ok (ok v) next h = (v, refl, h)
