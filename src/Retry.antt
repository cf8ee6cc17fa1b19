-- ===== src/Retry.antt =====
-- internal/retry/retry.go. What `fn` and the clock do to the rest of the world is the state `S`;
-- `wait` is the `select` between `ctx.Done()` (true) and `time.After(delay)` (false).
pub mod Bounds
pub mod Outcome
pub mod Effect
mod Tests
use metrics_alerting_service.Prelude.{
  ℕ, Bool, true, false, Option, none, some, List, [], ◌∷◌, if◌then◌else◌,
}
use metrics_alerting_service.Errors.{Error}

-- 1 s, 3 s, 5 s
abbrev pub delays : List ℕ
delays = 1 ∷ 3 ∷ 5 ∷ []

module _ {S : Type 0} (fn : S → Option Error × S) (is_retriable : Error → Bool)
    (wait : ℕ → S → Bool × S) where
  pub again : (Error → S → Option Error × S) → Option Error × S → Option Error × S
  again rest (none, s) = (none, s)
  again rest (some e, s) = rest e s

  pub waited : (Error → S → Option Error × S) → Error → Bool × S → Option Error × S
  unfolding again
  waited rest e (true, s) = (some e, s)
  waited rest e (false, s) = again rest (fn s)

  -- the loop over the delays that are left, after an attempt that failed with `e`
  pub retry_loop : List ℕ → Error → S → Option Error × S
  unfolding waited
  retry_loop [] e s = (some e, s)
  retry_loop (delay ∷ rest) e s =
      if is_retriable e then waited (retry_loop rest) e (wait delay s) else (some e, s)

  unfoldable pub retry : S → Option Error × S
  unfolding retry_loop again
  retry s = again (retry_loop delays) (fn s)
