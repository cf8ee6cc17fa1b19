-- ===== src/Http.antt =====
-- What the handlers and the middleware see of net/http: a request, and the calls on a
-- `ResponseWriter`, kept as a list in the order in which they are made. `B` is the type of byte
-- strings.
use metrics_alerting_service.Prelude.{ℕ, String, List, [], ◌∷◌}
use metrics_alerting_service.Model.{Int64}
use metrics_alerting_service.Errors.{Result}

pub record Request (B : Type 0) : Type 0 where
  -- chi.URLParam
  pub url_param : String → String
  -- Header.Get, "" for a header that is missing
  pub header : String → String
  -- io.ReadAll of the body
  pub body : Result B
  pub remote_addr : String
  -- time.Now().Unix() while the request is handled
  pub now : Int64

pub data Op (B : Type 0) : Type 0 where
  set_header : String → String → Op B
  del_header : String → Op B
  write_header : ℕ → Op B
  write : B → Op B

-- A handler over a state: the calls that it makes on its writer, and the new state.
abbrev pub Handler : Type 0 → Type 0 → Type 0
Handler B S = Request B → S → List (Op B) × S

-- The status that the client gets: the first `WriteHeader`, or 200 if a body comes before it or
-- nothing comes at all.
unfoldable pub status : {B : Type 0} → List (Op B) → ℕ
status [] = 200
status (set_header k v ∷ ops) = status ops
status (del_header k ∷ ops) = status ops
status (write_header code ∷ ops) = code
status (write b ∷ ops) = 200

-- `http.Error` and `[]byte(text)`.
pub record Net (B : Type 0) : Type 0 where
  pub error : String → ℕ → List (Op B)
  pub bytes : String → B
