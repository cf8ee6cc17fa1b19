-- ===== src/Crypto.antt =====
-- internal/crypto/crypto.go: the hybrid format of an encrypted body. RSA-OAEP, AES-GCM and the
-- source of random bytes are parameters; `W` is the state that the latter reads.
pub mod RoundTrip
pub mod Keys
pub mod Certs
mod Tests
use metrics_alerting_service.Prelude.{
  ℕ, ◌+◌, ◌*◌, ◌/◌, ◌%◌, ◌^◌, List, [], ◌∷◌, ◌++◌, length, take, drop, ltb, if◌then◌else◌,
}
use metrics_alerting_service.Errors.{Error, Result, ok, err, Bytes, malformed, ◌>>=◌}

-- cipher.AEAD; `unseal` is `Open`, and `seal` is what `Seal` appends to its first argument.
pub record Aead : Type 0 where
  pub nonce_size : ℕ
  pub seal : Bytes → Bytes → Bytes
  pub unseal : Bytes → Bytes → Result Bytes

-- crypto/rand, crypto/rsa, `aes.NewCipher` and `cipher.NewGCM`
pub record Primitives (Pub Priv Block W : Type 0) : Type 0 where
  pub random : ℕ → W → Result Bytes × W
  pub encrypt_oaep : Pub → Bytes → W → Result Bytes × W
  pub decrypt_oaep : Priv → Bytes → Result Bytes
  pub new_cipher : Bytes → Result Block
  pub aead : Block → Result Aead

abbrev pub aes_key_size : ℕ
aes_key_size = 32

-- binary.BigEndian.PutUint16 of `uint16(n)`
unfoldable pub put_uint16 : ℕ → Bytes
put_uint16 n = (n % 2 ^ 16) / 256 ∷ (n % 2 ^ 16) % 256 ∷ []

-- The output of `Encrypt`: the length of the encrypted session key, that key, the nonce and the
-- ciphertext.
unfoldable pub layout : Bytes → Bytes → Bytes
unfolding put_uint16
layout enc_key sealed = put_uint16 (length enc_key) ++ enc_key ++ sealed

module _ {Pub Priv Block W : Type 0} (p : Primitives Pub Priv Block W) where
  -- `newGCM`
  unfoldable pub new_gcm : Bytes → Result Aead
  new_gcm aes_key = p.new_cipher aes_key >>= p.aead

  -- the session key under RSA, and the end of `Encrypt`
  unfoldable pub with_key : Bytes → Result Bytes × W → Result Bytes × W
  with_key sealed (err e, w) = (err e, w)
  with_key sealed (ok enc_key, w) = (ok (layout enc_key sealed), w)

  unfoldable pub with_nonce : Pub → Bytes → Bytes → Aead → Result Bytes × W → Result Bytes × W
  with_nonce pk plaintext aes_key gcm (err e, w) = (err e, w)
  with_nonce pk plaintext aes_key gcm (ok nonce, w) =
      with_key (nonce ++ gcm.seal nonce plaintext) (p.encrypt_oaep pk aes_key w)

  unfoldable pub with_gcm : Pub → Bytes → Bytes → W → Result Aead → Result Bytes × W
  with_gcm pk plaintext aes_key w (err e) = (err e, w)
  with_gcm pk plaintext aes_key w (ok gcm) =
      with_nonce pk plaintext aes_key gcm (p.random gcm.nonce_size w)

  unfoldable pub with_session : Pub → Bytes → Result Bytes × W → Result Bytes × W
  with_session pk plaintext (err e, w) = (err e, w)
  with_session pk plaintext (ok aes_key, w) = with_gcm pk plaintext aes_key w (new_gcm aes_key)

  -- `Encrypt`
  unfoldable pub encrypt : Pub → Bytes → W → Result Bytes × W
  encrypt pk plaintext w = with_session pk plaintext (p.random aes_key_size w)

  -- the end of `Decrypt`, with the session's cipher
  unfoldable pub open_sealed : Bytes → Aead → Result Bytes
  open_sealed sealed gcm =
      if ltb (length sealed) gcm.nonce_size
      then err malformed
      else gcm.unseal (take gcm.nonce_size sealed) (drop gcm.nonce_size sealed)

  unfoldable pub decrypt_parts : Priv → Bytes → Bytes → Result Bytes
  decrypt_parts sk enc_key sealed = p.decrypt_oaep sk enc_key >>= new_gcm >>= open_sealed sealed

  -- `Decrypt`; `a` and `b` are the two bytes of the length
  unfoldable pub decrypt : Priv → Bytes → Result Bytes
  decrypt sk [] = err malformed
  decrypt sk (a ∷ []) = err malformed
  decrypt sk (a ∷ b ∷ rest) =
      if ltb (length rest) (a * 256 + b)
      then err malformed
      else decrypt_parts sk (take (a * 256 + b) rest) (drop (a * 256 + b) rest)
