-- ===== src/Crypto/Tests.antt =====
-- The hybrid format with keys of 32 bytes, a cipher that adds one byte, and a fixed nonce.
use metrics_alerting_service.Prelude.{
  ℕ, zero, suc, ◌≡◌, refl, ap, Bool, true, false, [], ◌∷◌, ◌++◌, length, eqb, arith,
}
use metrics_alerting_service.Errors.{Result, ok, err, Bytes, malformed, other}
use metrics_alerting_service.Crypto.{
  new_gcm, Aead, Primitives, layout, with_key, with_nonce, with_gcm, with_session, encrypt, decrypt,
}
use metrics_alerting_service.Crypto.RoundTrip.{AreLawful, decrypt-encrypt}

abbrev pub sevens : ℕ → Bytes
sevens zero = []
sevens (suc n) = 7 ∷ sevens n

length-sevens : (n : ℕ) → length (sevens n) ≡ n
length-sevens zero = refl
length-sevens (suc n) = ap suc (length-sevens n)

abbrev pub oaep : Bool → Bytes → Result Bytes × ℕ
oaep true x = (ok x, 0)
oaep false x = (err (other "message too long"), 0)

abbrev pub without_tag : Bytes → Result Bytes
without_tag [] = err malformed
without_tag (tag ∷ x) = ok x

abbrev pub gcm : Aead
gcm = record { nonce_size = 12; seal = λ nonce x. 99 ∷ x; unseal = λ nonce x. without_tag x }

abbrev pub primitives : Primitives ℕ ℕ Bytes ℕ
primitives = record {
  random = λ n w. (ok (sevens n), w);
  encrypt_oaep = λ pk x w. oaep (eqb (length x) 32) x;
  decrypt_oaep = λ sk x. ok x;
  new_cipher = λ key. ok key;
  aead = λ block. ok gcm;
}

primitives_random : (n w w' : ℕ) (b : Bytes) → primitives.random n w ≡ (ok b, w') → length b ≡ n
primitives_random n w w' b h = cc (length-sevens n)

oaep_undone :
    (x enc : Bytes) (w' : ℕ) (b : Bool)
    → eqb (length x) 32 ≡ b
    → oaep b x ≡ (ok enc, w')
    → (ok enc ≡ ok x) × (length enc ≡ 32)
oaep_undone x enc w' true e h = (cc, cc (has_length (length x) e))
  where
    has_length : (n : ℕ) → eqb n 32 ≡ true → n ≡ 32
    has_length n k = ground arith
oaep_undone x enc w' false e h = cc

unsealed :
    (key : Bytes) (g : Aead) (nonce x : Bytes)
    → new_gcm primitives key ≡ ok g
    → length nonce ≡ g.nonce_size
    → g.unseal nonce (g.seal nonce x) ≡ ok x
unfolding new_gcm
unsealed key g nonce x h k = ap (λ a. a.unseal nonce (a.seal nonce x)) (same h)
  where
    same : new_gcm primitives key ≡ ok g → g ≡ gcm
    same e = cc

pub primitives-AreLawful : AreLawful primitives 1 2 32
primitives-AreLawful = record {
  random_length = primitives_random;
  oaep = λ x enc w w' h. oaep_undone x enc w' (eqb (length x) 32) refl h;
  unseal-seal = unsealed;
}

abbrev pub session : Bytes
session = sevens 32

abbrev pub message : Bytes
message = 104 ∷ 105 ∷ []

abbrev pub encrypted : Bytes
encrypted = layout session (sevens 12 ++ 99 ∷ message)

pub encrypted_message : encrypt primitives 1 message 0 ≡ (ok encrypted, 0)
unfolding new_gcm encrypt with_session with_gcm with_nonce with_key
encrypted_message = refl

decrypt-encrypt_example : decrypt primitives 2 encrypted ≡ ok message
decrypt-encrypt_example =
    decrypt-encrypt primitives 1 2 32 primitives-AreLawful (omega arith) message encrypted 0 0
      encrypted_message

short_malformed : decrypt primitives 2 (0 ∷ 32 ∷ 7 ∷ []) ≡ err malformed
unfolding decrypt
short_malformed = refl
