-- ===== src/Staticlint/Collect.antt =====
-- What stands in the lists that the walk over a package joins.
use mathlib.Core.List.{Memᴰ}
use metrics_alerting_service.Prelude.{
  String, Bool, true, false, List, [], ◌∷◌, ◌++◌, ◌==◌, ◌≡◌, ◌⊎◌, inl, inr, refl, sym, subst, arith,
  eq_iff, Bool-cases, if◌then◌else◌, ◌↔◌,
}
use metrics_alerting_service.Staticlint.{concat_map, any_of}

module _ {B : Type 0} where
  append-left : {y : B} (xs ys : List B) → Memᴰ y xs → Memᴰ y (xs ++ ys)
  append-left [] ys m = elim m [ ]
  append-left (x ∷ xs) ys (Memᴰ.head e) = Memᴰ.head e
  append-left (x ∷ xs) ys (Memᴰ.tail m) = Memᴰ.tail (append-left xs ys m)

  append-right : {y : B} (xs ys : List B) → Memᴰ y ys → Memᴰ y (xs ++ ys)
  append-right [] ys m = m
  append-right (x ∷ xs) ys m = Memᴰ.tail (append-right xs ys m)

  append-cases : {y : B} (xs ys : List B) → Memᴰ y (xs ++ ys) → Memᴰ y xs ⊎ Memᴰ y ys
  append-cases [] ys m = inr m
  append-cases (x ∷ xs) ys (Memᴰ.head e) = inl (Memᴰ.head e)
  append-cases (x ∷ xs) ys (Memᴰ.tail m) = elim (append-cases xs ys m) [
    | inl p ↦ inl (Memᴰ.tail p)
    | inr q ↦ inr q
  ]

  -- what an early return leaves
  pub mem-unless :
      (b : Bool) (y : B) (xs : List B) → Memᴰ y (if b then [] else xs) ↔ ((b ≡ false) × Memᴰ y xs)
  mem-unless true y xs = (λ m. elim m [ ], λ h. cc)
  mem-unless false y xs = (λ m. (refl, m), λ h. h.1)

  -- what a report under a test leaves
  pub mem-if : (b : Bool) (y x : B) → Memᴰ y (if b then x ∷ [] else []) ↔ ((b ≡ true) × (y ≡ x))
  mem-if true y x = (λ m. (refl, one m), λ h. Memᴰ.head h.1)
    where
      one : Memᴰ y (x ∷ []) → y ≡ x
      one (Memᴰ.head e) = e
      one (Memᴰ.tail m) = elim m [ ]
  mem-if false y x = (λ m. elim m [ ], λ h. cc)

module _ {A : Type 0} {B : Type 0} (f : A → List B) (y : B) where
  -- `y` is in the list of some `x` in `xs`.
  abbrev pub InSome : List A → Type 0
  InSome xs = (x : A) × Memᴰ x xs × Memᴰ y (f x)

  from-concat_map : (xs : List A) → Memᴰ y (concat_map f xs) → InSome xs
  unfolding concat_map
  from-concat_map [] m = elim m [ ]
  from-concat_map (x ∷ xs) m = elim (append-cases (f x) (concat_map f xs) m) [
    | inl p ↦ (x, Memᴰ.head refl, p)
    | inr q ↦ let (z, i, p) = from-concat_map xs q in (z, Memᴰ.tail i, p)
  ]

  to-concat_map : (xs : List A) (x : A) → Memᴰ x xs → Memᴰ y (f x) → Memᴰ y (concat_map f xs)
  unfolding concat_map
  to-concat_map [] z i p = elim i [ ]
  to-concat_map (x ∷ xs) z (Memᴰ.head e) p =
      append-left (f x) (concat_map f xs) (subst (λ w. Memᴰ y (f w)) e p)
  to-concat_map (x ∷ xs) z (Memᴰ.tail i) p =
      append-right (f x) (concat_map f xs) (to-concat_map xs z i p)

  pub mem-concat_map : (xs : List A) → Memᴰ y (concat_map f xs) ↔ InSome xs
  mem-concat_map xs = (from-concat_map xs, λ h. to-concat_map xs h.0 h.1 h.2)

from-any_of : (name : String) (xs : List String) → any_of (λ t. t == name) xs ≡ true → Memᴰ name xs
unfolding any_of
from-any_of name [] h = cc
from-any_of name (x ∷ xs) h = elim (Bool-cases (x == name)) [
  | inl e ↦ Memᴰ.head (sym ((eq_iff x name).0 e))
  | inr e ↦ Memᴰ.tail (from-any_of name xs (ground arith))
]

to-any_of : (name : String) (xs : List String) → Memᴰ name xs → any_of (λ t. t == name) xs ≡ true
unfolding any_of
to-any_of name [] m = elim m [ ]
to-any_of name (x ∷ xs) (Memᴰ.head e) = ground (arith, eq_iff x name)
to-any_of name (x ∷ xs) (Memᴰ.tail m) = ground (arith, to-any_of name xs m)

pub mem-any_of :
    (name : String) (xs : List String) → (any_of (λ t. t == name) xs ≡ true) ↔ Memᴰ name xs
mem-any_of name xs = (from-any_of name xs, to-any_of name xs)
