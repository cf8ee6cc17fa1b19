-- ===== src/Retry/Outcome.antt =====
-- What the result of `Do` says about the attempts.
use metrics_alerting_service.Prelude.{
  ℕ, suc, ◌+◌, ◌≡◌, refl, ◌∙◌, ap, Bool, true, false, Option, none, some, List, [], ◌∷◌, arith,
  length, if◌then◌else◌,
}
use metrics_alerting_service.Errors.{Error}
use metrics_alerting_service.Retry.{again, waited, retry_loop, retry, delays}

module _ {S : Type 0} (fn : S → Option Error × S) (is_retriable : Error → Bool)
    (wait : ℕ → S → Bool × S) where
  abbrev Succeeds : S → Type 0
  Succeeds t = (u : S) × (fn u ≡ (none, t))

  again-Succeeds :
      (rest : Error → S → Option Error × S)
      → ((e : Error) (s t : S) → rest e s ≡ (none, t) → Succeeds t)
      → (s t : S) (r : Option Error × S) → fn s ≡ r
      → again fn is_retriable wait rest r ≡ (none, t)
      → Succeeds t
  unfolding again
  again-Succeeds rest h s t (none, s') e k = (s, e ∙ k)
  again-Succeeds rest h s t (some e', s') e k = h e' s' t k

  waited-Succeeds :
      (rest : Error → S → Option Error × S)
      → ((e : Error) (s t : S) → rest e s ≡ (none, t) → Succeeds t)
      → (e : Error) (t : S) (w : Bool × S) → waited fn is_retriable wait rest e w ≡ (none, t)
      → Succeeds t
  unfolding waited
  waited-Succeeds rest h e t (true, s) k = cc
  waited-Succeeds rest h e t (false, s) k = again-Succeeds rest h s t (fn s) refl k

  loop-Succeeds :
      (ds : List ℕ) (e : Error) (s t : S)
      → retry_loop fn is_retriable wait ds e s ≡ (none, t)
      → Succeeds t
  unfolding retry_loop
  loop-Succeeds [] e s t k = cc
  loop-Succeeds (d ∷ ds) e s t k =
      loop_step (is_retriable e)
        (waited-Succeeds (retry_loop fn is_retriable wait ds) (loop-Succeeds ds) e t (wait d s)) k
    where
      loop_step :
          (b : Bool) {r : Option Error × S}
          → (r ≡ (none, t) → Succeeds t)
          → (if b then r else (some e, s)) ≡ (none, t)
          → Succeeds t
      loop_step true h k' = h k'
      loop_step false h k' = cc

  -- When `Do` returns nil, the last call of `fn` returned nil, and nothing came after it.
  pub retry-ok : (s t : S) → retry fn is_retriable wait s ≡ (none, t) → (u : S) × (fn u ≡ (none, t))
  unfolding retry
  retry-ok s t k =
      again-Succeeds (retry_loop fn is_retriable wait delays) (loop-Succeeds delays) s t (fn s) refl
        k

  -- An error that is not retriable ends `Do` after one call of `fn`.
  pub retry-permanent :
      (e : Error) (s t : S)
      → fn s ≡ (some e, t)
      → is_retriable e ≡ false
      → retry fn is_retriable wait s ≡ (some e, t)
  unfolding retry retry_loop
  retry-permanent e s t h p = rw (h, again) (rw p)

  module _ (calls : S → ℕ) (counts : (s : S) → calls (fn s).1 ≡ calls s + 1)
      (idle : (d : ℕ) (s : S) → calls (wait d s).1 ≡ calls s)
      (never_done : (d : ℕ) (s : S) → (wait d s).0 ≡ false) where
    again-exhausts :
        (rest : Error → S → Option Error × S) (n : ℕ)
        → ((e e' : Error) (s t : S)
            → rest e s ≡ (some e', t)
            → is_retriable e' ≡ true
            → calls t ≡ calls s + n)
        → (e' : Error) (t : S) (r : Option Error × S)
        → again fn is_retriable wait rest r ≡ (some e', t)
        → is_retriable e' ≡ true
        → calls t ≡ calls r.1 + n
    unfolding again
    again-exhausts rest n h e' t (none, s) k p = cc
    again-exhausts rest n h e' t (some e, s) k p = h e e' s t k p

    waited-exhausts :
        (rest : Error → S → Option Error × S) (n : ℕ)
        → ((e e' : Error) (s t : S)
            → rest e s ≡ (some e', t)
            → is_retriable e' ≡ true
            → calls t ≡ calls s + n)
        → (e e' : Error) (t : S) (w : Bool × S) → w.0 ≡ false
        → waited fn is_retriable wait rest e w ≡ (some e', t)
        → is_retriable e' ≡ true
        → calls t ≡ calls w.1 + suc n
    unfolding waited
    waited-exhausts rest n h e e' t (true, s) f k p = cc
    waited-exhausts rest n h e e' t (false, s) f k p =
        omega (arith, again-exhausts rest n h e' t (fn s) k p, counts s)

    loop-exhausts :
        (ds : List ℕ) (e e' : Error) (s t : S)
        → retry_loop fn is_retriable wait ds e s ≡ (some e', t)
        → is_retriable e' ≡ true
        → calls t ≡ calls s + length ds
    unfolding retry_loop
    loop-exhausts [] e e' s t k p = ground (arith, ap (λ (r : Option Error × S). calls r.1) k)
    loop-exhausts (d ∷ ds) e e' s t k p = ground (
      arith,
      waited-exhausts (retry_loop fn is_retriable wait ds) (length ds) (loop-exhausts ds) e e' t
          (wait d s) (never_done d s),
      idle d s,
    )

    -- If the context is never cancelled, `Do` returns a retriable error only after four calls of `fn`.
    pub retry-exhausts :
        (e : Error) (s t : S)
        → retry fn is_retriable wait s ≡ (some e, t)
        → is_retriable e ≡ true
        → calls t ≡ calls s + 4
    unfolding retry
    retry-exhausts e s t k p = omega (
      arith,
      again-exhausts (retry_loop fn is_retriable wait delays) 3 (loop-exhausts delays) e t (fn s) k
          p,
      counts s,
    )
