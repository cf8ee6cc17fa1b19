-- ===== src/Crypto/Certs/Tests.antt =====
-- Certificates that are two bytes, the serial number and the public key, for two hosts and a blank.
use metrics_alerting_service.Prelude.{ℕ, String, Option, none, some, [], ◌∷◌, ◌==◌, if◌then◌else◌}
use metrics_alerting_service.Errors.{ok, Bytes}
use metrics_alerting_service.Dict.{Dict}
use metrics_alerting_service.Crypto.Certs.{CertLib, Options}

abbrev parse_ip : String → Option ℕ
parse_ip h = if h == "127.0.0.1" then some 127 else none

abbrev lib : CertLib ℕ ℕ ℕ Bytes (Dict Bytes)
lib = record {
  random_int = λ limit s. (ok 7, s);
  create_certificate = λ t parent pk sk s. (ok (t.serial_number ∷ pk ∷ []), s);
  parse_certificate = λ der. ok der;
  split = λ text. "localhost" ∷ "127.0.0.1" ∷ "" ∷ [];
  trim_space = λ h. h;
  parse_ip = parse_ip;
}

abbrev ca_path : String
ca_path = "ca.crt"

abbrev cert_path : String
cert_path = "server.crt"

abbrev key_path : String
key_path = "server.key"

abbrev options : Options
options = record {
  ca_path = ca_path;
  cert_path = cert_path;
  key_path = key_path;
  hosts = "localhost,127.0.0.1,";
  not_before = 0;
  not_after = 365;
}

abbrev disk : Dict Bytes
disk = (ca_path, 7 ∷ 1 ∷ []) ∷ (cert_path, 7 ∷ 1 ∷ []) ∷ (key_path, 2 ∷ []) ∷ []

abbrev start : Dict Bytes
start = []
