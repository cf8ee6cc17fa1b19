-- ===== src/ObjectPool.antt =====
-- internal/pool/pool.go, the pool of reusable objects over sync.Pool. An object is a pointer into a
-- heap; sync.Pool stores values of type `any`, may forget any of them, and gives back any of them. Its
-- users are threads that take turns: a thread may change an object that it holds, and gives it up when
-- it calls `Put`.
pub mod Invariant
mod Tests
use mathlib.Core.List.{Memᴰ}
use metrics_alerting_service.Prelude.Removed.{Removed}
use metrics_alerting_service.Prelude.{
  ℕ, eqb, ◌+◌, Option, none, some, List, [], ◌∷◌, ◌≡◌, if◌then◌else◌,
}

-- a value of the type `any`: a `T`, by its address, or anything else
pub data Any : Type 0 where
  of_type : ℕ → Any
  foreign : ℕ → Any

-- `v.(T)`; `none` is the panic
unfoldable pub assert_type : Any → Option ℕ
assert_type (of_type p) = some p
assert_type (foreign n) = none

-- What the threads share: the objects, the values in sync.Pool, the addresses that are held, and the
-- next free address.
pub record World (T : Type 0) : Type 0 where
  pub heap : ℕ → T
  pub stored : List Any
  pub held : List ℕ
  pub next : ℕ

unfoldable pub set_at : {T : Type 0} → ℕ → T → (ℕ → T) → ℕ → T
set_at p v h q = if eqb p q then v else h q

module _ {T : Type 0} (reset : T → T) (new_fn : T) where
  -- `New` and the function `newFn`, which allocates an object
  unfoldable pub new_pool : (ℕ → T) → World T
  new_pool heap = record { heap = heap; stored = []; held = []; next = 0 }

  unfoldable pub allocate : World T → World T
  unfolding set_at
  allocate w = record w {
    heap = set_at w.next new_fn w.heap;
    held = w.next ∷ w.held;
    next = w.next + 1;
  }

  -- `Put`: the object is reset in place, then stored; `held` is what its thread still holds.
  unfoldable pub put : ℕ → List ℕ → World T → World T
  unfolding set_at
  put p held w = record w {
    heap = set_at p (reset (w.heap p)) w.heap;
    stored = of_type p ∷ w.stored;
    held = held;
  }

  -- What the threads and sync.Pool may do. `Get` gives back a stored value, or makes a new object.
  pub data Step (w : World T) : World T → Type 0 where
    gets :
        (a : Any) (rest : List Any) (p : ℕ)
        → Removed a w.stored rest
        → assert_type a ≡ some p
        → Step w (record w { stored = rest; held = p ∷ w.held })
    makes : Step w (allocate w)
    writes : (p : ℕ) (v : T) → Memᴰ p w.held → Step w (record w { heap = set_at p v w.heap })
    puts : (p : ℕ) (rest : List ℕ) → Removed p w.held rest → Step w (put p rest w)
    forgets :
        (a : Any) (rest : List Any) → Removed a w.stored rest → Step w (record w { stored = rest })

  pub data Reach (heap : ℕ → T) : World T → Type 0 where
    start : Reach heap (new_pool heap)
    next_step : {w v : World T} → Reach heap w → Step w v → Reach heap v
