-- ===== src/ObjectPool/Invariant.antt =====
-- The invariant of the pool: stored values are addresses of clean objects, and no address stands twice
-- among the stored and the held ones.
use mathlib.Core.List.{Memᴰ}
use metrics_alerting_service.Prelude.{
  ℕ, ◌+◌, ◌≤◌, ◌≡◌, ◌≢◌, refl, ap, subst, Bool, true, false, some, List, [], ◌∷◌, arith, eqb,
  eqb_self, if◌then◌else◌,
}
use metrics_alerting_service.Prelude.Removed.{
  Removed, first, later, Memᴰ-Removed, Memᴰ-Removed_self,
}
use metrics_alerting_service.ObjectPool.{
  Any, of_type, foreign, assert_type, World, set_at, new_pool, allocate, put, Step, gets, makes,
  writes, puts, forgets, Reach, start, next_step,
}

count_by : {A : Type 0} → (A → Bool) → List A → ℕ
count_by f [] = 0
count_by f (x ∷ xs) = (if f x then 1 else 0) + count_by f xs

count_by-Removed :
    {A : Type 0} (f : A → Bool) {x : A} {xs ys : List A}
    → Removed x xs ys
    → count_by f xs ≡ (if f x then 1 else 0) + count_by f ys
unfolding count_by
count_by-Removed f (first xs) = refl
count_by-Removed f (later y xs ys r) = omega (arith, count_by-Removed f r)

count_by-Memᴰ :
    {A : Type 0} (f : A → Bool) (x : A) (xs : List A) → Memᴰ x xs → f x ≡ true → 1 ≤ count_by f xs
unfolding count_by
count_by-Memᴰ f x [] m h = elim m [ ]
count_by-Memᴰ f x (y ∷ ys) (Memᴰ.head e) h = ground (arith, ap f e)
count_by-Memᴰ f x (y ∷ ys) (Memᴰ.tail m) h = omega (arith, count_by-Memᴰ f x ys m h)

points_to : ℕ → Any → Bool
points_to p (of_type q) = eqb p q
points_to p (foreign n) = false

points_to-assert_type : (q p : ℕ) (a : Any) → assert_type a ≡ some p → points_to q a ≡ eqb q p
unfolding points_to assert_type
points_to-assert_type q p (of_type r) e = ground arith
points_to-assert_type q p (foreign n) e = cc

-- how often an address stands among the stored values and the held addresses
count_places : ℕ → List Any → List ℕ → ℕ
unfolding count_by points_to
count_places p stored held = count_by (points_to p) stored + count_by (eqb p) held

gets-places :
    (q p : ℕ) (a : Any) (stored rest : List Any) (held : List ℕ)
    → Removed a stored rest
    → assert_type a ≡ some p
    → count_places q rest (p ∷ held) ≡ count_places q stored held
unfolding count_places
gets-places q p a stored rest held r e = omega (
  arith,
  count_by-Removed (points_to q) r,
  ap (λ (b : Bool). let n : ℕ = if b then 1 else 0 in n) (points_to-assert_type q p a e),
)

-- a new object adds one place, that of its address
makes-places :
    (q next : ℕ) (stored : List Any) (held : List ℕ)
    → count_places q stored (next ∷ held)
      ≡ (if eqb q next then 1 else 0) + count_places q stored held
unfolding count_places
makes-places q next stored held = omega arith

puts-places :
    (q p : ℕ) (stored : List Any) (held rest : List ℕ)
    → Removed p held rest
    → count_places q (of_type p ∷ stored) rest ≡ count_places q stored held
unfolding count_places
puts-places q p stored held rest r = omega (arith, count_by-Removed (eqb q) r)

forgets-places :
    (q : ℕ) (a : Any) (stored rest : List Any) (held : List ℕ)
    → Removed a stored rest
    → count_places q rest held ≤ count_places q stored held
unfolding count_places
forgets-places q a stored rest held r = omega (arith, count_by-Removed (points_to q) r)

stored-places :
    (q : ℕ) (stored : List Any) (held : List ℕ)
    → Memᴰ (of_type q) stored
    → 1 + count_by (eqb q) held ≤ count_places q stored held
unfolding count_places
stored-places q stored held m =
    omega (arith, count_by-Memᴰ (points_to q) (of_type q) stored m (eqb_self q))

module _ {T : Type 0} (reset : T → T) (new_fn : T) where
  -- The object is as `Reset` leaves one.
  abbrev pub IsReset : T → Type 0
  IsReset x = (y : T) × (x ≡ reset y)

  abbrev IsClean : (ℕ → T) → Any → Type 0
  IsClean heap a = (p : ℕ) × (a ≡ of_type p) × IsReset (heap p)

  record Inv (w : World T) : Type 0 where
    pub clean : (a : Any) → Memᴰ a w.stored → IsClean w.heap a
    pub once : (p : ℕ) → count_places p w.stored w.held ≤ 1
    pub fresh : (p : ℕ) → w.next ≤ p → count_places p w.stored w.held ≡ 0

  -- a write to another object keeps an object clean
  IsClean-set_at :
      (heap : ℕ → T) (p : ℕ) (v : T) (a : Any)
      → ((q : ℕ) → a ≡ of_type q → p ≢ q)
      → IsClean heap a
      → IsClean (set_at p v heap) a
  unfolding set_at
  IsClean-set_at heap p v a n (q, e, (y, c)) = (q, e, (y, ground (arith, n q e)))

  held-ne-stored :
      (w : World T) (p : ℕ) (a : Any)
      → Inv w
      → Memᴰ p w.held
      → Memᴰ a w.stored
      → (q : ℕ) → a ≡ of_type q
      → p ≢ q
  held-ne-stored w p a inv h m q e k = absurd (
      omega (
        arith,
        stored-places q w.stored w.held (subst (λ b. Memᴰ b w.stored) e m),
        inv.once q,
        count_by-Memᴰ (eqb q) q w.held (subst (λ r. Memᴰ r w.held) k h) (eqb_self q),
      ))

  new-ne-stored :
      (w : World T) (a : Any) → Inv w → Memᴰ a w.stored → (q : ℕ) → a ≡ of_type q → w.next ≢ q
  new-ne-stored w a inv m q e k = absurd (
      omega (
        arith,
        stored-places q w.stored w.held (subst (λ b. Memᴰ b w.stored) e m),
        inv.fresh q (omega arith),
      ))

  put-IsClean :
      (w : World T) (p : ℕ) (rest : List ℕ)
      → Removed p w.held rest
      → Inv w
      → (a : Any) → Memᴰ a (of_type p ∷ w.stored)
      → IsClean (set_at p (reset (w.heap p)) w.heap) a
  unfolding set_at
  put-IsClean w p rest r inv a (Memᴰ.head e) = (p, e, (w.heap p, ground (arith, eqb_self p)))
  put-IsClean w p rest r inv a (Memᴰ.tail m) =
      IsClean-set_at w.heap p (reset (w.heap p)) a
        (held-ne-stored w p a inv (Memᴰ-Removed_self r) m) (inv.clean a m)

  Step-Inv : {w v : World T} → Step reset new_fn w v → Inv w → Inv v
  unfolding allocate put
  Step-Inv {w} (gets a rest p r e) inv = record {
    clean = λ b m. inv.clean b (Memᴰ-Removed r m);
    once = λ q. omega (arith, gets-places q p a w.stored rest w.held r e, inv.once q);
    fresh = λ q h. omega (arith, gets-places q p a w.stored rest w.held r e, inv.fresh q h);
  }
  Step-Inv {w} makes inv = record {
    clean = λ a m. IsClean-set_at w.heap w.next new_fn a (new-ne-stored w a inv m) (inv.clean a m);
    once = λ q. ground (arith, makes-places q w.next w.stored w.held, inv.once q, inv.fresh q);
    fresh = λ q h. ground (arith, makes-places q w.next w.stored w.held, inv.fresh q);
  }
  Step-Inv {w} (writes p v m) inv = record {
    clean = λ a k. IsClean-set_at w.heap p v a (held-ne-stored w p a inv m k) (inv.clean a k);
    once = inv.once;
    fresh = inv.fresh;
  }
  Step-Inv {w} (puts p rest r) inv = record {
    clean = put-IsClean w p rest r inv;
    once = λ q. omega (arith, puts-places q p w.stored w.held rest r, inv.once q);
    fresh = λ q h. omega (arith, puts-places q p w.stored w.held rest r, inv.fresh q h);
  }
  Step-Inv {w} (forgets a rest r) inv = record {
    clean = λ b m. inv.clean b (Memᴰ-Removed r m);
    once = λ q. omega (arith, forgets-places q a w.stored rest w.held r, inv.once q);
    fresh = λ q h. omega (arith, forgets-places q a w.stored rest w.held r, inv.fresh q h);
  }

  new_pool-Inv : (heap : ℕ → T) → Inv (new_pool reset new_fn heap)
  unfolding new_pool count_places
  new_pool-Inv heap = record {
    clean = λ a m. elim m [ ];
    once = λ p. omega arith;
    fresh = λ p h. refl;
  }

  Reach-Inv : {heap : ℕ → T} {w : World T} → Reach reset new_fn heap w → Inv w
  Reach-Inv {heap} start = new_pool-Inv heap
  Reach-Inv (next_step r s) = Step-Inv s (Reach-Inv r)

  -- In every state that is reached, for every value that sync.Pool may give back: the type assertion of
  -- `Get` does not panic, the object is as `Reset` left it, and no thread holds it.
  pub Get-IsReset :
      {heap : ℕ → T} {w : World T}
      → Reach reset new_fn heap w
      → (a : Any) → Memᴰ a w.stored
      → (p : ℕ) × (assert_type a ≡ some p) × IsReset (w.heap p) × (¬ Memᴰ p w.held)
  unfolding assert_type
  Get-IsReset {w = w} r a m =
      let inv = Reach-Inv r in
      let (p, e, c) = inv.clean a m in
      (p, ap assert_type e, c, λ h. held-ne-stored w p a inv h m p e refl)
