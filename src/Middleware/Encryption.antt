-- ===== src/Middleware/Encryption.antt =====
-- internal/crypto/middleware.go: the body of a request that is marked with X-Encrypted is decrypted
-- before the next handler reads it. `ContentLength`, which no handler reads, is left out.
use metrics_alerting_service.Prelude.{Option, none, some, List, ◌==◌, ◌≡◌, refl, if◌then◌else◌}
use metrics_alerting_service.Errors.{Result, ok, err}
use metrics_alerting_service.Http.{Request, Op, Handler, Net}

module _ {B Priv S : Type 0} (net : Net B) (decrypt : Priv → B → Result B) where
  with_plaintext : Request B → Result B → Handler B S → S → List (Op B) × S
  with_plaintext r (err e) next s = (net.error "decryption failed" 400, s)
  with_plaintext r (ok plaintext) next s = next (record r { body = ok plaintext }) s

  with_body : Priv → Result B → Handler B S → Handler B S
  unfolding with_plaintext
  with_body sk (err e) next r s = (net.error "failed to read body" 500, s)
  with_body sk (ok body) next r s = with_plaintext r (decrypt sk body) next s

  -- `Middleware`
  unfoldable pub encryption : Option Priv → Handler B S → Handler B S
  unfolding with_body
  encryption none next r s = next r s
  encryption (some sk) next r s =
      if r.header "X-Encrypted" == "" then next r s else with_body sk r.body next r s

  -- A marked request whose body decrypts is passed on with the plaintext.
  pub encryption-marked :
      (sk : Priv) (next : Handler B S) (r : Request B) (body plaintext : B) (s : S)
      → r.body ≡ ok body
      → r.header "X-Encrypted" ≡ "1"
      → decrypt sk body ≡ ok plaintext
      → encryption (some sk) next r s ≡ next (record r { body = ok plaintext }) s
  unfolding encryption with_body with_plaintext
  encryption-marked sk next r body plaintext s b h d = rw (h, b, d)

  -- An unmarked request is passed on as it is, with or without a key.
  pub encryption-unmarked :
      (sk : Option Priv) (next : Handler B S) (r : Request B) (s : S)
      → r.header "X-Encrypted" ≡ ""
      → encryption sk next r s ≡ next r s
  unfolding encryption
  encryption-unmarked none next r s h = refl
  encryption-unmarked (some sk) next r s h = rw h
