-- ===== src/Crypto/Keys.antt =====
-- internal/crypto/crypto.go (`LoadPublicKey`, `LoadPrivateKey`) and cmd/keygen/main.go: the files of the
-- keys. The file system, encoding/pem, crypto/x509 and `rsa.GenerateKey` are parameters; `S` is the
-- state of the file system and of the source of random bytes. Texts of errors are left out.
pub mod Loaded
pub mod Tests
use metrics_alerting_service.Prelude.{ℕ, String, Option, none, some}
use metrics_alerting_service.Errors.{Error, other, Result, ok, err, Bytes, ◌>>=◌}

-- `pem.Block`
pub record Block : Type 0 where
  pub block_type : String
  pub bytes : Bytes

-- What crypto/x509 parses: an RSA key or a key of another algorithm.
pub data Key (K : Type 0) : Type 0 where
  rsa : K → Key K
  other_key : Key K

pub record X509 (Pub Priv : Type 0) : Type 0 where
  pub parse_pkix_public_key : Bytes → Result (Key Pub)
  pub parse_pkcs1_public_key : Bytes → Result Pub
  pub parse_pkcs8_private_key : Bytes → Result (Key Priv)
  pub parse_pkcs1_private_key : Bytes → Result Priv
  pub marshal_pkcs8_private_key : Priv → Result Bytes
  pub marshal_pkix_public_key : Pub → Result Bytes

-- os.ReadFile, os.OpenFile to write and truncate with a mode, pem.Encode to the open file of a path, its
-- `Close`, pem.Decode, rsa.GenerateKey and the field `PublicKey`
pub record Files (Pub Priv S : Type 0) : Type 0 where
  pub read_file : String → S → Result Bytes
  pub open_file : String → ℕ → S → Option Error × S
  pub encode : String → Block → S → Option Error × S
  pub close : String → S → Option Error × S
  pub decode : Bytes → Option Block
  pub generate_key : ℕ → S → Result Priv × S
  pub public_key : Priv → Pub

module _ {Pub Priv S : Type 0} (x509 : X509 Pub Priv) (files : Files Pub Priv S) where
  first_block : Option Block → Result Block
  first_block none = err (other "no PEM block")
  first_block (some b) = ok b

  -- `readPEM`
  unfoldable pub read_pem : String → S → Result Block
  unfolding first_block
  read_pem path s = files.read_file path s >>= (λ text. first_block (files.decode text))

  public_of : Block → Result (Key Pub) → Result Pub
  public_of b (ok (rsa k)) = ok k
  public_of b (ok other_key) = err (other "not RSA")
  public_of b (err e) = x509.parse_pkcs1_public_key b.bytes

  -- `LoadPublicKey`
  unfoldable pub load_public_key : String → S → Result Pub
  unfolding public_of
  load_public_key path s =
      read_pem path s >>= (λ b. public_of b (x509.parse_pkix_public_key b.bytes))

  private_of : Block → Result (Key Priv) → Result Priv
  private_of b (ok (rsa k)) = ok k
  private_of b (ok other_key) = err (other "not RSA")
  private_of b (err e) = x509.parse_pkcs1_private_key b.bytes

  -- `LoadPrivateKey`
  unfoldable pub load_private_key : String → S → Result Priv
  unfolding private_of
  load_private_key path s =
      read_pem path s >>= (λ b. private_of b (x509.parse_pkcs8_private_key b.bytes))

  -- `errors.Join` of the result and of that of the deferred `Close`; of two errors the first is kept
  joined : Option Error → Option Error × S → Option Error × S
  joined none (e, s) = (e, s)
  joined (some e) (e', s) = (some e, s)

  encoded : String → Option Error × S → Option Error × S
  encoded path (e, s) = joined e (files.close path s)

  opened : String → Block → Option Error × S → Option Error × S
  opened path b (some e, s) = (some e, s)
  opened path b (none, s) = encoded path (files.encode path b s)

  -- `writePEM`
  unfoldable pub write_pem : String → String → Bytes → ℕ → S → Option Error × S
  unfolding opened encoded joined
  write_pem path block_type der perm s =
      opened path (record { block_type = block_type; bytes = der }) (files.open_file path perm s)

  with_public : String → Result Bytes → S → Option Error × S
  with_public pub_path (err e) s = (some e, s)
  with_public pub_path (ok der) s = write_pem pub_path "PUBLIC KEY" der 420 s

  after_private : String → Priv → Option Error × S → Option Error × S
  after_private pub_path key (some e, s) = (some e, s)
  after_private pub_path key (none, s) =
      with_public pub_path (x509.marshal_pkix_public_key (files.public_key key)) s

  with_private : String → String → Priv → Result Bytes → S → Option Error × S
  with_private priv_path pub_path key (err e) s = (some e, s)
  with_private priv_path pub_path key (ok der) s =
      after_private pub_path key (write_pem priv_path "PRIVATE KEY" der 384 s)

  with_key : String → String → Result Priv × S → Option Error × S
  with_key priv_path pub_path (err e, s) = (some e, s)
  with_key priv_path pub_path (ok key, s) =
      with_private priv_path pub_path key (x509.marshal_pkcs8_private_key key) s

  -- `main` of keygen on its flags; an error is where `log.Fatalf` ends it
  unfoldable pub keygen : String → String → ℕ → S → Option Error × S
  unfolding with_key with_private after_private with_public
  keygen priv_path pub_path bits s = with_key priv_path pub_path (files.generate_key bits s)
