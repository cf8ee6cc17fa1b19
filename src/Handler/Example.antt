-- ===== src/Handler/Example.antt =====
-- A concrete net/http, codecs and number formats for the tests: a body is a list of metrics.
use metrics_alerting_service.Prelude.{
  ℕ, String, ◌≡◌, refl, none, some, List, [], ◌∷◌, ◌==◌, if◌then◌else◌,
}
use metrics_alerting_service.Model.{Metrics}
use metrics_alerting_service.Errors.{Result, ok, err, other}
use metrics_alerting_service.Service.{Strconv}
use metrics_alerting_service.Http.{Request, write_header, write, status, Net}
use metrics_alerting_service.Handler.{Codecs}

abbrev pub Body : Type 0
Body = List Metrics

abbrev pub net : Net Body
net = record { error = λ text code. write_header code ∷ write [] ∷ []; bytes = λ text. [] }

pub error_status : (text : String) (code : ℕ) → status (net.error text code) ≡ code
unfolding status
error_status text code = refl

abbrev first : Body → Result Metrics
first [] = err (other "EOF")
first (m ∷ ms) = ok m

abbrev pub codecs : Codecs Body
codecs = record {
  decode_metric = first;
  decode_metrics = λ ms. ok ms;
  encode_metric = λ m. ok (m ∷ []);
  message = λ e. "error";
  status_text = λ code. "status";
  split_host_port = λ a. none;
}

-- "1" is the only number
abbrev pub conv : Strconv
conv = record {
  format_float = λ v. "float";
  format_int = λ d. "int";
  parse_float = λ text. if text == "1" then some 1 else none;
  parse_int = λ text. if text == "1" then some 1 else none;
}

abbrev pub request : String → String → String → Body → Request Body
request type name value body = record {
  url_param = λ p. if p == "type" then type else if p == "name" then name else value;
  header = λ h. "";
  body = ok body;
  remote_addr = "10.0.0.1:5000";
  now = 1700000000;
}
