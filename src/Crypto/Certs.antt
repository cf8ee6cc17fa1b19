-- ===== src/Crypto/Certs.antt =====
-- cmd/certgen/main.go: the certificate of a CA, and one for the server that it signs. The files are those of
-- cmd/keygen, whose `writePEM` is the same code; keys are ECDSA here, and `generate_key` takes the size of
-- the curve. crypto/x509, `rand.Int`, net and strings are parameters.
pub mod Issued
pub mod Hosts
mod Tests
use metrics_alerting_service.Prelude.{
  ℕ, String, Bool, true, false, Option, none, some, List, [], ◌∷◌, ◌++◌, ◌==◌, if◌then◌else◌,
}
use metrics_alerting_service.Errors.{Error, Result, ok, err, Bytes}
use metrics_alerting_service.Crypto.Keys.{X509, Files, write_pem}

pub data KeyUsage : Type 0 where
  cert_sign digital_signature : KeyUsage

-- `x509.Certificate` as a template; `server_auth` is the one extended usage
pub record Template (Ip : Type 0) : Type 0 where
  pub serial_number : ℕ
  pub common_name : String
  pub not_before : ℕ
  pub not_after : ℕ
  pub key_usage : List KeyUsage
  pub server_auth : Bool
  pub is_ca : Bool
  pub ip_addresses : List Ip
  pub dns_names : List String

-- the parent of a certificate: its own template, or a certificate that was parsed
pub data Parent (Ip Cert : Type 0) : Type 0 where
  itself : Template Ip → Parent Ip Cert
  parsed : Cert → Parent Ip Cert

pub record CertLib (Pub Priv Ip Cert S : Type 0) : Type 0 where
  pub random_int : ℕ → S → Result ℕ × S
  pub create_certificate : Template Ip → Parent Ip Cert → Pub → Priv → S → Result Bytes × S
  pub parse_certificate : Bytes → Result Cert
  pub split : String → List String
  pub trim_space : String → String
  pub parse_ip : String → Option Ip

-- the values of the flags, with the two times made of `-days`
pub record Options : Type 0 where
  pub ca_path : String
  pub cert_path : String
  pub key_path : String
  pub hosts : String
  pub not_before : ℕ
  pub not_after : ℕ

-- `log.Fatalf` on an error, and the rest of `main` otherwise
unfoldable pub after : {A S : Type 0} → Result A × S → (A → S → Option Error × S) → Option Error × S
after (ok a, s) next = next a s
after (err e, s) next = (some e, s)

unfoldable pub and_then :
    {S : Type 0} → Option Error × S → (S → Option Error × S) → Option Error × S
and_then (none, s) next = next s
and_then (some e, s) next = (some e, s)

module _ {Pub Priv Ip Cert S : Type 0} (x509 : X509 Pub Priv) (files : Files Pub Priv S)
    (lib : CertLib Pub Priv Ip Cert S) where
  unfoldable pub add_san : String → Option Ip → Template Ip → Template Ip
  add_san h (some ip) t = record t { ip_addresses = t.ip_addresses ++ ip ∷ [] }
  add_san h none t = record t { dns_names = t.dns_names ++ h ∷ [] }

  -- the body of the loop over the hosts
  unfoldable pub add_host : String → Template Ip → Template Ip
  add_host h t = if h == "" then t else add_san h (lib.parse_ip h) t

  unfoldable pub add_hosts : List String → Template Ip → Template Ip
  add_hosts [] t = t
  add_hosts (h ∷ hs) t = add_hosts hs (add_host (lib.trim_space h) t)

  unfoldable pub ca_template : Options → ℕ → Template Ip
  ca_template o serial = record {
    serial_number = serial;
    common_name = "metrics-alerting CA";
    not_before = o.not_before;
    not_after = o.not_after;
    key_usage = cert_sign ∷ digital_signature ∷ [];
    server_auth = false;
    is_ca = true;
    ip_addresses = [];
    dns_names = [];
  }

  unfoldable pub server_template : Options → ℕ → Template Ip
  unfolding add_hosts
  server_template o serial = add_hosts (lib.split o.hosts) (record {
    serial_number = serial;
    common_name = "metrics-alerting server";
    not_before = o.not_before;
    not_after = o.not_after;
    key_usage = digital_signature ∷ [];
    server_auth = true;
    is_ca = false;
    ip_addresses = [];
    dns_names = [];
  })

  -- `serial`
  unfoldable pub serial : S → Result ℕ × S
  serial s = lib.random_int 340282366920938463463374607431768211456 s

  -- the three files
  unfoldable pub write_files : Options → Bytes → Bytes → Priv → S → Option Error × S
  write_files o ca_der srv_der srv_key s =
      and_then (write_pem x509 files o.ca_path "CERTIFICATE" ca_der 420 s) (λ s1.
        and_then (write_pem x509 files o.cert_path "CERTIFICATE" srv_der 420 s1) (λ s2.
          after (x509.marshal_pkcs8_private_key srv_key, s2)
            (λ der s3. write_pem x509 files o.key_path "PRIVATE KEY" der 384 s3)))

  -- the certificate of the server, under a CA
  unfoldable pub with_ca : Options → Priv → Bytes → Cert → S → Option Error × S
  with_ca o ca_key ca_der ca_cert s = after (files.generate_key 256 s) (λ srv_key s1.
      after (serial s1) (λ n s2.
        after
          (lib.create_certificate (server_template o n) (parsed ca_cert) (files.public_key srv_key)
            ca_key s2)
          (λ srv_der s3. write_files o ca_der srv_der srv_key s3)))

  -- `main`
  unfoldable pub certgen : Options → S → Option Error × S
  certgen o s = after (files.generate_key 256 s) (λ ca_key s1. after (serial s1) (λ n s2.
      after
        (lib.create_certificate (ca_template o n) (itself (ca_template o n))
          (files.public_key ca_key) ca_key s2)
        (λ ca_der s3.
          after (lib.parse_certificate ca_der, s3)
            (λ ca_cert s4. with_ca o ca_key ca_der ca_cert s4))))
