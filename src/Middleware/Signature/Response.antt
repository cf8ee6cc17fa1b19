-- ===== src/Middleware/Signature/Response.antt =====
-- The signature of a response, and what a signed request comes to.
use metrics_alerting_service.Prelude.{
  ℕ, String, ◌≡◌, refl, sym, ap, ◌∙◌, Bool, true, false, List, [], ◌∷◌, ◌++◌, All, ◌==◌, eq_refl,
  arith, Bool-cases, if_elim, inl, inr, if◌then◌else◌,
}
use metrics_alerting_service.Errors.{ok}
use metrics_alerting_service.Http.{
  Request, Op, set_header, del_header, write_header, write, Handler, Net,
}
use metrics_alerting_service.Middleware.Signature.{
  Buffer, Hmac, HashWriter, body_after, sent, compute, verify, new_hash_writer, hash_op, hash_ops,
  send_signed, sign_response, signed, check_body, signature,
}

module _ {B : Type 0} (buf : Buffer B) (hmac : Hmac B) where
  abbrev IsHeader : Op B → Type 0
  IsHeader (set_header k v) = Unit
  IsHeader (del_header k) = Unit
  IsHeader (write_header code) = ⊥
  IsHeader (write b) = ⊥

  All-snoc :
      (hs : List (Op B)) (h : Op B) → All IsHeader hs → IsHeader h → All IsHeader (hs ++ h ∷ [])
  All-snoc [] h a p = (p, tt)
  All-snoc (x ∷ hs) h (q, a) p = (q, All-snoc hs h a p)

  hash_ops-headers :
      (ops : List (Op B)) (w : HashWriter buf hmac)
      → All IsHeader w.passed
      → All IsHeader (hash_ops buf hmac ops w).passed
  unfolding hash_ops hash_op
  hash_ops-headers [] w a = a
  hash_ops-headers (set_header k v ∷ ops) w a =
      hash_ops-headers ops _ (All-snoc w.passed (set_header k v) a tt)
  hash_ops-headers (del_header k ∷ ops) w a =
      hash_ops-headers ops _ (All-snoc w.passed (del_header k) a tt)
  hash_ops-headers (write_header code ∷ ops) w a = hash_ops-headers ops _ a
  hash_ops-headers (write b ∷ ops) w a = hash_ops-headers ops _ a

  hash_ops-body :
      (ops : List (Op B)) (w : HashWriter buf hmac)
      → (hash_ops buf hmac ops w).body ≡ body_after buf w.body ops
  unfolding hash_ops hash_op body_after
  hash_ops-body [] w = refl
  hash_ops-body (set_header k v ∷ ops) w = hash_ops-body ops _
  hash_ops-body (del_header k ∷ ops) w = hash_ops-body ops _
  hash_ops-body (write_header code ∷ ops) w = hash_ops-body ops _
  hash_ops-body (write b ∷ ops) w = hash_ops-body ops _

  sent-headers :
      (k x : String) (hs : List (Op B)) (v : String) (b : Bool) (code : ℕ) (body : B)
      → All IsHeader hs
      → sent k v (
          hs
          ++ (set_header k x ∷ [])
          ++ (if b then write_header code ∷ [] else [])
          ++ write body ∷ [])
        ≡ x
  unfolding sent
  sent-headers k x [] v b code body a = ground (arith, eq_refl k)
  sent-headers k x (set_header j u ∷ hs) v b code body (p, a) = sent-headers k x hs _ b code body a
  sent-headers k x (del_header j ∷ hs) v b code body (p, a) = sent-headers k x hs _ b code body a
  sent-headers k x (write_header c ∷ hs) v b code body (p, a) = absurd p
  sent-headers k x (write c ∷ hs) v b code body (p, a) = absurd p

  body-headers :
      (acc : B) (hs : List (Op B)) (k x : String) (b : Bool) (code : ℕ) (body : B)
      → All IsHeader hs
      → body_after buf acc (
          hs
          ++ (set_header k x ∷ [])
          ++ (if b then write_header code ∷ [] else [])
          ++ write body ∷ [])
        ≡ buf.append acc body
  unfolding body_after
  body-headers acc [] k x true code body a = refl
  body-headers acc [] k x false code body a = refl
  body-headers acc (set_header j u ∷ hs) k x b code body (p, a) =
      body-headers acc hs k x b code body a
  body-headers acc (del_header j ∷ hs) k x b code body (p, a) =
      body-headers acc hs k x b code body a
  body-headers acc (write_header c ∷ hs) k x b code body (p, a) = absurd p
  body-headers acc (write c ∷ hs) k x b code body (p, a) = absurd p

  signed_headers :
      (key : String) (w : HashWriter buf hmac)
      → buf.is_empty w.body ≡ false
      → send_signed buf hmac key w
        ≡ w.passed
          ++ (set_header "HashSHA256" (compute buf hmac w.body key) ∷ [])
          ++ (if w.wrote_header then write_header w.status_code ∷ [] else [])
          ++ write w.body ∷ []
  unfolding send_signed
  signed_headers key w h = rw h

  signed-body :
      (key : String) (w : HashWriter buf hmac)
      → ((b : B) → buf.append buf.empty b ≡ b)
      → All IsHeader w.passed
      → buf.is_empty w.body ≡ false
      → body_after buf buf.empty (send_signed buf hmac key w) ≡ w.body
  signed-body key w unit a h =
      ap (body_after buf buf.empty) (signed_headers key w h)
      ∙ body-headers buf.empty w.passed "HashSHA256" (compute buf hmac w.body key) w.wrote_header
          w.status_code w.body a
      ∙ unit w.body

  signed-sent :
      (key : String) (w : HashWriter buf hmac)
      → All IsHeader w.passed
      → buf.is_empty w.body ≡ false
      → sent "HashSHA256" "" (send_signed buf hmac key w) ≡ compute buf hmac w.body key
  signed-sent key w a h =
      ap (sent "HashSHA256" "") (signed_headers key w h)
      ∙ sent-headers "HashSHA256" (compute buf hmac w.body key) w.passed "" w.wrote_header
          w.status_code w.body a

  -- `Verify` accepts what `Compute` gives.
  verify-eq :
      (body body' : B) (key x : String)
      → body ≡ body'
      → x ≡ compute buf hmac body' key
      → verify buf hmac body key x ≡ true
  unfolding verify
  verify-eq body body' key x h k = rw (h, k, eq_refl (compute buf hmac body' key))

  -- A response with a body, of a handler that makes the calls `ops`, goes out with the same body and
  -- with a header HashSHA256 that `Verify` accepts for this body.
  pub verify-sign_response :
      (key : String) (ops : List (Op B))
      → ((b : B) → buf.append buf.empty b ≡ b)
      → buf.is_empty (body_after buf buf.empty ops) ≡ false
      → (body_after buf buf.empty (sign_response buf hmac key ops) ≡ body_after buf buf.empty ops)
        × (verify buf hmac
              (body_after buf buf.empty (sign_response buf hmac key ops))
              key
              (sent "HashSHA256" "" (sign_response buf hmac key ops))
            ≡ true)
  unfolding sign_response
  verify-sign_response key ops unit h =
      let e = hash_ops-body ops (new_hash_writer buf hmac) in
      let a = hash_ops-headers ops (new_hash_writer buf hmac) tt in
      let k = ap buf.is_empty e ∙ h in
      let b = signed-body key (hash_ops buf hmac ops (new_hash_writer buf hmac)) unit a k in
      (
        b ∙ e,
        verify-eq
            (body_after buf buf.empty
              (send_signed buf hmac key (hash_ops buf hmac ops (new_hash_writer buf hmac))))
            (hash_ops buf hmac ops (new_hash_writer buf hmac)).body key _ b
            (signed-sent key (hash_ops buf hmac ops (new_hash_writer buf hmac)) a k),
      )

  module _ {S : Type 0} (net : Net B) where
    signed-state : (key : String) (x : List (Op B) × S) → (signed buf hmac net key x).1 ≡ x.1
    unfolding signed
    signed-state key (ops, s) = refl

    check_body-state :
        (key received : String) (next : Handler B S) (r : Request B) (body : B) (s : S)
        → r.body ≡ ok body
        → received ≡ compute buf hmac body key
        → (check_body buf hmac net key received r.body next r s).1
          ≡ (next (record r { body = ok body }) s).1
    unfolding check_body
    check_body-state key received next r body s b h = rw (
      b,
      verify-eq body body key received refl h,
      signed-state key (next (record r { body = ok body }) s),
    )

    -- A request that is signed with the server's key is passed on: the state is as the next handler
    -- leaves it.
    pub signature-state :
        (key : String) (next : Handler B S) (r : Request B) (body : B) (s : S)
        → r.body ≡ ok body
        → r.header "HashSHA256" ≡ (if key == "" then "" else compute buf hmac body key)
        → (signature buf hmac net key next r s).1 ≡ (next (record r { body = ok body }) s).1
    unfolding signature
    signature-state key next r body s b h = elim (Bool-cases (key == "")) [
      | inl e ↦ rw (e, sym b)
      | inr e ↦
          ap
            (λ t.
              (if t
                then next r s
                else if r.header "HashSHA256" == ""
                then signed buf hmac net key (next r s)
                else check_body buf hmac net key (r.header "HashSHA256") r.body next r s).1)
            e
          ∙ if_elim (λ (x : List (Op B) × S). x.1 ≡ (next (record r { body = ok body }) s).1)
              (r.header "HashSHA256" == "")
              (signed-state key (next r s) ∙ ap (λ t. (next (record r { body = t }) s).1) b)
              (check_body-state key (r.header "HashSHA256") next r body s b
                (h ∙ ap (λ t. if t then "" else compute buf hmac body key) e))
    ]
