-- ===== src/Retry/Tests.antt =====
-- Tests of `Do` over a script of results, and its theorems at concrete inputs. The state is the
-- results that are left, the calls made and the seconds waited.
use metrics_alerting_service.Prelude.{
  ℕ, ◌+◌, ◌≤◌, ◌≡◌, refl, Bool, true, false, Option, none, some, List, [], ◌∷◌, arith,
}
use metrics_alerting_service.Errors.{Error, no_db, empty_id}
use metrics_alerting_service.Retry.{retry}
use metrics_alerting_service.Retry.Outcome.{retry-exhausts}

record World : Type 0 where
  script : List (Option Error)
  calls : ℕ
  seconds : ℕ

abbrev next : List (Option Error) → World → Option Error × World
next [] w = (none, record w { calls = w.calls + 1 })
next (r ∷ rs) w = (r, record w { script = rs; calls = w.calls + 1 })

abbrev fn : World → Option Error × World
fn w = next w.script w

abbrev is_retriable : Error → Bool
is_retriable no_db = true
is_retriable _ = false

abbrev wait : ℕ → World → Bool × World
wait d w = (false, record w { seconds = w.seconds + d })

abbrev start : List (Option Error) → World
start rs = record { script = rs; calls = 0; seconds = 0 }

abbrev flaky : World
flaky = start (some no_db ∷ some no_db ∷ none ∷ [])

abbrev down : World
down = start (some no_db ∷ some no_db ∷ some no_db ∷ some no_db ∷ none ∷ [])

abbrev invalid : World
invalid = start (some empty_id ∷ none ∷ [])

flaky_recovers :
    retry fn is_retriable wait flaky ≡ (none, record { script = []; calls = 3; seconds = 4 })
unfolding retry
flaky_recovers = refl

down_fails :
    retry fn is_retriable wait down
    ≡ (some no_db, record { script = none ∷ []; calls = 4; seconds = 9 })
unfolding retry
down_fails = refl

fn_calls : (w : World) → (fn w).1.calls ≡ w.calls + 1
fn_calls w = ground arith

fn_seconds : (w : World) → (fn w).1.seconds ≤ w.seconds + 0
fn_seconds w = ground arith

retry-exhausts_example : ◌≡◌ {A = ℕ} 4 (down.calls + 4)
retry-exhausts_example =
    retry-exhausts fn is_retriable wait (λ w. w.calls) fn_calls (λ d w. refl) (λ d w. refl) no_db
      down (record { script = none ∷ []; calls = 4; seconds = 9 }) down_fails refl
