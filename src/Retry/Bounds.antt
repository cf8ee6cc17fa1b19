-- ===== src/Retry/Bounds.antt =====
-- How often `Do` calls `fn` and how long it waits.
use metrics_alerting_service.Prelude.{
  ℕ, ◌+◌, ◌*◌, ◌≤◌, Bool, true, false, Option, none, some, List, [], ◌∷◌, arith,
}
use metrics_alerting_service.Errors.{Error}
use metrics_alerting_service.Retry.{again, waited, retry_loop, retry, delays}

-- what the attempts after the first may cost, at `a` for a call and `b` for a second of waiting
abbrev cost : ℕ → ℕ → List ℕ → ℕ
cost a b [] = 0
cost a b (d ∷ ds) = b * d + a + cost a b ds

module _ {S : Type 0} (fn : S → Option Error × S) (is_retriable : Error → Bool)
    (wait : ℕ → S → Bool × S) where
  module _ (meter : S → ℕ) (a b : ℕ) (calls : (s : S) → meter (fn s).1 ≤ meter s + a)
      (waits : (d : ℕ) (s : S) → meter (wait d s).1 ≤ meter s + b * d) where
    again-cost :
        (rest : Error → S → Option Error × S) (n : ℕ)
        → ((e : Error) (s : S) → meter (rest e s).1 ≤ meter s + n)
        → (r : Option Error × S) → meter (again fn is_retriable wait rest r).1 ≤ meter r.1 + n
    unfolding again
    again-cost rest n h (none, s) = omega arith
    again-cost rest n h (some e, s) = h e s

    waited-cost :
        (rest : Error → S → Option Error × S) (n : ℕ)
        → ((e : Error) (s : S) → meter (rest e s).1 ≤ meter s + n)
        → (e : Error) (w : Bool × S)
        → meter (waited fn is_retriable wait rest e w).1 ≤ meter w.1 + a + n
    unfolding waited
    waited-cost rest n h e (true, s) = omega arith
    waited-cost rest n h e (false, s) = omega (arith, again-cost rest n h (fn s), calls s)

    retry_loop-cost :
        (ds : List ℕ) (e : Error) (s : S)
        → meter (retry_loop fn is_retriable wait ds e s).1 ≤ meter s + cost a b ds
    unfolding retry_loop
    retry_loop-cost [] e s = omega arith
    retry_loop-cost (d ∷ ds) e s = ground (
      arith,
      waited-cost (retry_loop fn is_retriable wait ds) (cost a b ds) (retry_loop-cost ds) e
          (wait d s),
      waits d s,
    )

    -- If a call of `fn` costs at most `a` and a wait of `d` seconds at most `b * d`, then `Do` costs
    -- at most four calls and nine seconds of waiting, whatever `fn` returns.
    retry-cost : (s : S) → meter (retry fn is_retriable wait s).1 ≤ meter s + 4 * a + 9 * b
    unfolding retry
    retry-cost s = omega (
      arith,
      again-cost (retry_loop fn is_retriable wait delays) (cost a b delays) (retry_loop-cost delays)
          (fn s),
      calls s,
    )
