-- ===== src/Retry/Effect.antt =====
-- What `Do` does to a part of the state that a failing attempt leaves alone.
use mathlib.Core.Bool.{true≢false}
use metrics_alerting_service.Prelude.{
  ℕ, ◌≡◌, refl, sym, ◌∙◌, Bool, true, false, Option, none, some, List, [], ◌∷◌, ◌⊎◌, inl, inr,
  if◌then◌else◌,
}
use metrics_alerting_service.Errors.{Error}
use metrics_alerting_service.Retry.{again, waited, retry_loop, retry, delays}

module _ {ℓ} {S : Type 0} {V : Type ℓ} (fn : S → Option Error × S) (is_retriable : Error → Bool)
    (wait : ℕ → S → Bool × S) (view : S → V) where
  -- After an error that is retriable the view is `v`. Any other error, and a success, may come from one
  -- call of `fn` at a state with the view `v`.
  abbrev pub Settles : V → Option Error × S → Type ℓ
  Settles v (some e, t) =
      (view t ≡ v) ⊎ ((is_retriable e ≡ false) × (u : S) × (view u ≡ v) × (fn u ≡ (some e, t)))
  Settles v (none, t) = (u : S) × (view u ≡ v) × (fn u ≡ (none, t))

  -- After an error the view is `v`; a success comes from one call of `fn` at a state with the view `v`.
  abbrev pub Ends : V → Option Error × S → Type ℓ
  Ends v (some e, t) = view t ≡ v
  Ends v (none, t) = (u : S) × (view u ≡ v) × (fn u ≡ (none, t))

  module _
      (fails_keep : (s t : S) (e : Error)
        → is_retriable e ≡ true
        → fn s ≡ (some e, t)
        → view t ≡ view s)
      (wait_keeps : (d : ℕ) (s : S) → view (wait d s).1 ≡ view s) where
    failed-Settles :
        (v : V) (s t : S) (e : Error)
        → view s ≡ v
        → fn s ≡ (some e, t)
        → (b : Bool) → is_retriable e ≡ b
        → Settles v (some e, t)
    failed-Settles v s t e p q true h = inl (fails_keep s t e h q ∙ p)
    failed-Settles v s t e p q false h = inr (h, s, p, q)

    again-Settles :
        (rest : Error → S → Option Error × S) (v : V)
        → ((e : Error) (s : S) → Settles v (some e, s) → Settles v (rest e s))
        → (s : S) → view s ≡ v
        → (r : Option Error × S) → fn s ≡ r
        → Settles v (again fn is_retriable wait rest r)
    unfolding again
    again-Settles rest v h s p (none, t) e = (s, p, e)
    again-Settles rest v h s p (some x, t) e =
        h x t (failed-Settles v s t x p e (is_retriable x) refl)

    waited-Settles :
        (rest : Error → S → Option Error × S) (v : V)
        → ((e : Error) (s : S) → Settles v (some e, s) → Settles v (rest e s))
        → (e : Error) (w : Bool × S) → view w.1 ≡ v
        → Settles v (waited fn is_retriable wait rest e w)
    unfolding waited
    waited-Settles rest v h e (true, s) p = inl p
    waited-Settles rest v h e (false, s) p = again-Settles rest v h s p (fn s) refl

    next_attempt :
        (rest : Error → S → Option Error × S) (v : V)
        → ((e : Error) (s : S) → Settles v (some e, s) → Settles v (rest e s))
        → (d : ℕ) (e : Error) (s : S) → Settles v (some e, s)
        → (b : Bool) → is_retriable e ≡ b
        → Settles v (if b then waited fn is_retriable wait rest e (wait d s) else (some e, s))
    next_attempt rest v h d e s (inl p) true r =
        waited-Settles rest v h e (wait d s) (wait_keeps d s ∙ p)
    next_attempt rest v h d e s (inr (n, _, _, _)) true r = absurd (true≢false (sym r ∙ n))
    next_attempt rest v h d e s p false r = p

    loop-Settles :
        (ds : List ℕ) (v : V) (e : Error) (s : S)
        → Settles v (some e, s)
        → Settles v (retry_loop fn is_retriable wait ds e s)
    unfolding retry_loop
    loop-Settles [] v e s p = p
    loop-Settles (d ∷ ds) v e s p =
        next_attempt (retry_loop fn is_retriable wait ds) v (loop-Settles ds v) d e s p
          (is_retriable e) refl

    -- If a call of `fn` that fails with a retriable error and a wait keep a view of the state, then so do
    -- all attempts of a `Do` but the last one.
    pub retry-Settles : (s : S) → Settles (view s) (retry fn is_retriable wait s)
    unfolding retry
    retry-Settles s =
        again-Settles (retry_loop fn is_retriable wait delays) (view s)
          (loop-Settles delays (view s)) s refl (fn s) refl

  -- If every failing call of `fn` and a wait keep a view of the state, then so does a `Do` that fails; and
  -- a `Do` that succeeds has had its effect by exactly one call, at a state with the first view.
  pub retry-Ends :
      ((s t : S) (e : Error) → fn s ≡ (some e, t) → view t ≡ view s)
      → ((d : ℕ) (s : S) → view (wait d s).1 ≡ view s)
      → (s : S) → Ends (view s) (retry fn is_retriable wait s)
  retry-Ends fails_keep wait_keeps s =
      ended (retry fn is_retriable wait s)
        (retry-Settles (λ u t e h q. fails_keep u t e q) wait_keeps s)
    where
      ended : (r : Option Error × S) → Settles (view s) r → Ends (view s) r
      ended (some e, t) (inl h) = h
      ended (some e, t) (inr (n, u, p, q)) = fails_keep u t e q ∙ p
      ended (none, t) h = h
