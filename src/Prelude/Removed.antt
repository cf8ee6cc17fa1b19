-- ===== src/Prelude/Removed.antt =====
-- A value taken out of a list at any place, and what holds of every element of a list.
use mathlib.Core.List.{List, ◌∷◌, Memᴰ}
use mathlib.Core.Path.{refl, sym, subst}

-- `x`, taken out of a list, leaves the second list.
pub data Removed {A : Type 0} (x : A) : List A → List A → Type 0 where
  first : (xs : List A) → Removed x (x ∷ xs) xs
  later : (y : A) (xs ys : List A) → Removed x xs ys → Removed x (y ∷ xs) (y ∷ ys)

module _ {A : Type 0} {x : A} where
  pub Memᴰ-Removed : {y : A} {xs ys : List A} → Removed x xs ys → Memᴰ y ys → Memᴰ y xs
  Memᴰ-Removed (first xs) m = Memᴰ.tail m
  Memᴰ-Removed (later z xs ys r) (Memᴰ.head e) = Memᴰ.head e
  Memᴰ-Removed (later z xs ys r) (Memᴰ.tail m) = Memᴰ.tail (Memᴰ-Removed r m)

  pub Memᴰ-Removed_self : {xs ys : List A} → Removed x xs ys → Memᴰ x xs
  Memᴰ-Removed_self (first xs) = Memᴰ.head refl
  Memᴰ-Removed_self (later z xs ys r) = Memᴰ.tail (Memᴰ-Removed_self r)

pub every-cons :
    {A : Type 0} (P : A → Type 0) (x : A) (xs : List A)
    → P x
    → ((y : A) → Memᴰ y xs → P y)
    → (y : A) → Memᴰ y (x ∷ xs)
    → P y
every-cons P x xs p h y (Memᴰ.head e) = subst P (sym e) p
every-cons P x xs p h y (Memᴰ.tail m) = h y m
