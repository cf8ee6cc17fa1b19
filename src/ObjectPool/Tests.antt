-- ===== src/ObjectPool/Tests.antt =====
-- An object that was changed and put back.
use mathlib.Core.List.{Memᴰ}
use metrics_alerting_service.Prelude.{ℕ, ◌≡◌, refl, some, []}
use metrics_alerting_service.Prelude.Removed.{first}
use metrics_alerting_service.ObjectPool.{
  of_type, assert_type, World, set_at, new_pool, allocate, put, makes, writes, puts, Reach, start,
  next_step,
}
use metrics_alerting_service.ObjectPool.Invariant.{IsReset, Get-IsReset}

-- an object is a number, `Reset` sets it to 0, and a new one is 7
abbrev empty_heap : ℕ → ℕ
empty_heap p = 0

abbrev made : World ℕ
unfolding allocate new_pool
made = allocate (λ x. 0) 7 (new_pool (λ x. 0) 7 empty_heap)

abbrev changed : World ℕ
unfolding set_at
changed = record made { heap = set_at 0 5 made.heap }

abbrev returned : World ℕ
unfolding put
returned = put (λ x. 0) 7 0 [] changed

returned-reached : Reach (λ x. 0) 7 empty_heap returned
unfolding made changed returned allocate new_pool set_at put
returned-reached =
    next_step (next_step (next_step start makes) (writes 0 5 (Memᴰ.head refl)))
      (puts 0 [] (first []))

object_is_stored : Memᴰ (of_type 0) returned.stored
unfolding made changed returned allocate new_pool put
object_is_stored = Memᴰ.head refl

Get-IsReset_example :
    (p : ℕ) × (assert_type (of_type 0) ≡ some p)
    × IsReset (λ x. 0) 7 (returned.heap p)
    × (¬ Memᴰ p returned.held)
Get-IsReset_example = Get-IsReset (λ x. 0) 7 returned-reached (of_type 0) object_is_stored
