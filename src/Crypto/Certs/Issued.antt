-- ===== src/Crypto/Certs/Issued.antt =====
-- The three files of certgen belong together.
use mathlib.Core.List.{Memᴰ}
use metrics_alerting_service.Prelude.{String, ◌≡◌, true, false}
use metrics_alerting_service.Errors.{ok, Bytes}
use metrics_alerting_service.Crypto.Keys.{X509, Files}
use metrics_alerting_service.Crypto.Keys.Loaded.{FilesLaws, Holds}
use metrics_alerting_service.Crypto.Certs.{CertLib, Options, Template, cert_sign, parsed, itself}
use metrics_alerting_service.Crypto.Certs.Hosts.{AreNamed}

module _ {Pub Priv Ip Cert S : Type 0} (x509 : X509 Pub Priv) (files : Files Pub Priv S)
    (lib : CertLib Pub Priv Ip Cert S) (laws : FilesLaws x509 files) where
  abbrev At : String → Bytes → S → Type 0
  At path der s = Holds x509 files path der s

  -- The CA file holds a certificate made by a template of a CA that may sign certificates, under itself
  -- and with its own key. The certificate file holds one made by a template for the authentication of a
  -- server, which is no CA and names every host of the option `-host` that is not blank; it was made
  -- under the CA's certificate, with the CA's key, for the public half of the key in the key file.
  pub record IsIssued (o : Options) (s' : S) : Type 0 where
    pub ca_key : Priv
    pub srv_key : Priv
    pub ca_der : Bytes
    pub srv_der : Bytes
    pub key_der : Bytes
    pub ca_cert : Cert
    pub ca_t : Template Ip
    pub srv_t : Template Ip
    pub ca_may_sign : (ca_t.is_ca ≡ true) × Memᴰ cert_sign ca_t.key_usage
    pub srv_flags : (srv_t.server_auth ≡ true) × (srv_t.is_ca ≡ false)
    pub srv_hosts : AreNamed x509 files lib (lib.split o.hosts) srv_t
    pub s1 : S
    pub s2 : S
    pub s3 : S
    pub s4 : S
    pub self_signed :
        lib.create_certificate ca_t (itself ca_t) (files.public_key ca_key) ca_key s1
        ≡ (ok ca_der, s2)
    pub ca_parsed : lib.parse_certificate ca_der ≡ ok ca_cert
    pub signed :
        lib.create_certificate srv_t (parsed ca_cert) (files.public_key srv_key) ca_key s3
        ≡ (ok srv_der, s4)
    pub key_marshaled : x509.marshal_pkcs8_private_key srv_key ≡ ok key_der
    pub ca_file : At o.ca_path ca_der s'
    pub cert_file : At o.cert_path srv_der s'
    pub key_file : At o.key_path key_der s'
