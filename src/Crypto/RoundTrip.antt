-- ===== src/Crypto/RoundTrip.antt =====
-- `Decrypt` undoes `Encrypt`.
use metrics_alerting_service.Prelude.{
  ℕ, ◌+◌, ◌*◌, ◌/◌, ◌%◌, ◌^◌, ◌<◌, ◌≡◌, refl, ap, ◌∙◌, List, [], ◌∷◌, ◌++◌, length, length-append,
  take, drop, arith, zero, suc,
}
use metrics_alerting_service.Errors.{Result, ok, err, Bytes}
use metrics_alerting_service.Crypto.{
  new_gcm, Aead, Primitives, put_uint16, layout, with_key, with_nonce, with_gcm, with_session,
  encrypt, open_sealed, decrypt_parts, decrypt, aes_key_size,
}

module _ {ℓ} {A : Type ℓ} where
  take-append : (n : ℕ) (xs ys : List A) → length xs ≡ n → take n (xs ++ ys) ≡ xs
  take-append zero [] ys h = refl
  take-append zero (x ∷ xs) ys h = ground arith
  take-append (suc n) [] ys h = ground arith
  take-append (suc n) (x ∷ xs) ys h = ap (λ l. x ∷ l) (take-append n xs ys (omega (arith, h)))

  drop-append : (n : ℕ) (xs ys : List A) → length xs ≡ n → drop n (xs ++ ys) ≡ ys
  drop-append zero [] ys h = refl
  drop-append zero (x ∷ xs) ys h = ground arith
  drop-append (suc n) [] ys h = ground arith
  drop-append (suc n) (x ∷ xs) ys h = drop-append n xs ys (omega (arith, h))

module _ {Pub Priv Block W : Type 0} (p : Primitives Pub Priv Block W) where
  -- What the libraries promise: `rand.Read` fills its buffer, `Open` undoes `Seal` under the same
  -- nonce, and `DecryptOAEP` with the private key of a pair undoes `EncryptOAEP`, whose result is as
  -- long as the modulus.
  pub record AreLawful (pk : Pub) (sk : Priv) (modulus : ℕ) : Type 0 where
    pub random_length : (n : ℕ) (w w' : W) (b : Bytes) → p.random n w ≡ (ok b, w') → length b ≡ n
    pub oaep :
        (x enc : Bytes) (w w' : W)
        → p.encrypt_oaep pk x w ≡ (ok enc, w')
        → (p.decrypt_oaep sk enc ≡ ok x) × (length enc ≡ modulus)
    pub unseal-seal :
        (key : Bytes) (gcm : Aead) (nonce x : Bytes)
        → new_gcm p key ≡ ok gcm
        → length nonce ≡ gcm.nonce_size
        → gcm.unseal nonce (gcm.seal nonce x) ≡ ok x

  open_sealed-seal :
      (gcm : Aead) (nonce x : Bytes)
      → length nonce ≡ gcm.nonce_size
      → gcm.unseal nonce (gcm.seal nonce x) ≡ ok x
      → open_sealed p (nonce ++ gcm.seal nonce x) gcm ≡ ok x
  unfolding open_sealed
  open_sealed-seal gcm nonce x h k = ground (
    arith,
    length-append nonce (gcm.seal nonce x),
    take-append gcm.nonce_size nonce (gcm.seal nonce x) h,
    drop-append gcm.nonce_size nonce (gcm.seal nonce x) h,
    k,
  )

  decrypt-layout :
      (sk : Priv) (enc sealed : Bytes)
      → length enc < 2 ^ 16
      → decrypt p sk (layout enc sealed) ≡ decrypt_parts p sk enc sealed
  unfolding decrypt layout put_uint16
  decrypt-layout sk enc sealed h = ground (
    arith,
    length-append enc sealed,
    take-append (length enc % 2 ^ 16 / 256 * 256 + length enc % 2 ^ 16 % 256) enc sealed
        (omega (arith, h)),
    drop-append (length enc % 2 ^ 16 / 256 * 256 + length enc % 2 ^ 16 % 256) enc sealed
        (omega (arith, h)),
  )

  with_key-ok :
      (sealed : Bytes) (r : Result Bytes × W) {out : Bytes} {w : W}
      → with_key p sealed r ≡ (ok out, w)
      → (enc : Bytes) × (r ≡ (ok enc, w)) × (out ≡ layout enc sealed)
  unfolding with_key
  with_key-ok sealed (err e, w) h = cc
  with_key-ok sealed (ok enc, w) h = (enc, cc, cc)

  with_nonce-ok :
      (pk : Pub) (x key : Bytes) (gcm : Aead) (r : Result Bytes × W) {out : Bytes} {w : W}
      → with_nonce p pk x key gcm r ≡ (ok out, w)
      → (nonce : Bytes) × (w1 : W) × (r ≡ (ok nonce, w1))
        × (with_key p (nonce ++ gcm.seal nonce x) (p.encrypt_oaep pk key w1) ≡ (ok out, w))
  unfolding with_nonce
  with_nonce-ok pk x key gcm (err e, w) h = cc
  with_nonce-ok pk x key gcm (ok nonce, w) h = (nonce, w, refl, h)

  with_gcm-ok :
      (pk : Pub) (x key : Bytes) (w0 : W) (r : Result Aead) {out : Bytes} {w : W}
      → with_gcm p pk x key w0 r ≡ (ok out, w)
      → (gcm : Aead) × (r ≡ ok gcm)
        × (with_nonce p pk x key gcm (p.random gcm.nonce_size w0) ≡ (ok out, w))
  unfolding with_gcm
  with_gcm-ok pk x key w0 (err e) h = cc
  with_gcm-ok pk x key w0 (ok gcm) h = (gcm, refl, h)

  with_session-ok :
      (pk : Pub) (x : Bytes) (r : Result Bytes × W) {out : Bytes} {w : W}
      → with_session p pk x r ≡ (ok out, w)
      → (key : Bytes) × (w1 : W) × (with_gcm p pk x key w1 (new_gcm p key) ≡ (ok out, w))
  unfolding with_session
  with_session-ok pk x (err e, w) h = cc
  with_session-ok pk x (ok key, w) h = (key, w, h)

  parts :
      (sk : Priv) (sealed : Bytes) {enc key x : Bytes} {gcm : Aead}
      → p.decrypt_oaep sk enc ≡ ok key
      → new_gcm p key ≡ ok gcm
      → open_sealed p sealed gcm ≡ ok x
      → decrypt_parts p sk enc sealed ≡ ok x
  unfolding decrypt_parts
  parts sk sealed d g o = rw (d, g, o)

  -- With a pair of keys whose modulus has less than 2 ^ 16 bytes, `Decrypt` of what `Encrypt` returns
  -- is the plaintext.
  pub decrypt-encrypt :
      (pk : Pub) (sk : Priv) (modulus : ℕ)
      → AreLawful pk sk modulus
      → modulus < 2 ^ 16
      → (plaintext out : Bytes) (w w' : W) → encrypt p pk plaintext w ≡ (ok out, w')
      → decrypt p sk out ≡ ok plaintext
  unfolding encrypt
  decrypt-encrypt pk sk modulus laws small x out w w' h =
      let (key, w1, h1) = with_session-ok pk x (p.random aes_key_size w) h in
      let (gcm, g, h2) = with_gcm-ok pk x key w1 (new_gcm p key) h1 in
      let (nonce, w2, n, h3) = with_nonce-ok pk x key gcm (p.random gcm.nonce_size w1) h2 in
      let (enc, e, o) = with_key-ok (nonce ++ gcm.seal nonce x) (p.encrypt_oaep pk key w2) h3 in
      let (d, l) = laws.oaep key enc w2 w' e in
      ap (decrypt p sk) o
      ∙ decrypt-layout sk enc (nonce ++ gcm.seal nonce x) (omega (arith, l, small))
      ∙ parts sk (nonce ++ gcm.seal nonce x) d g (
          open_sealed-seal gcm nonce x (laws.random_length gcm.nonce_size w1 w2 nonce n)
            (laws.unseal-seal key gcm nonce x g (laws.random_length gcm.nonce_size w1 w2 nonce n)))
