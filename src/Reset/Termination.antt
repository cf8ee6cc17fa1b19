-- ===== src/Reset/Termination.antt =====
-- When `emitField` ends. It goes through named types without `Reset`, so it ends if these are not built
-- from themselves, and does not end if one of them is.
use Prim.Native.Nat.{max}
use metrics_alerting_service.Prelude.{
  ℕ, zero, suc, ◌<◌, String, ◌≡◌, refl, sym, subst, Bool, false, Option, none, some, arith,
  if◌then◌else◌, Bool-cases, inl, inr,
}
use mathlib.Core.Option
use metrics_alerting_service.Reset.{
  GoType, basic, slice, map, interface, opaque, pointer, named, struct, Fields, Access, sel, deref,
  Stmts, append, one, if_not_nil, call_reset, emit_struct, emit_field,
}

module _ (resettable : GoType → Bool) (underlying : String → GoType) where
  -- How deep the recursion goes from a type, if it goes `rank n` deep from a name without `Reset`.
  unfoldable mutual
    pub height : (String → ℕ) → GoType → ℕ
    height rank (basic b) = 0
    height rank slice = 0
    height rank map = 0
    height rank interface = 0
    height rank opaque = 0
    height rank (pointer t) = if resettable (pointer t) then 0 else suc (height rank t)
    height rank (named n) = if resettable (named n) then 0 else rank n
    height rank (struct fs) = suc (height_fields rank fs)

    pub height_fields : (String → ℕ) → Fields → ℕ
    height_fields rank Fields.nil = 0
    height_fields rank (Fields.field f t fs) = max (height rank t) (height_fields rank fs)

  -- A name without `Reset` stands for a type of a lower rank: no such type is built from itself.
  abbrev pub IsRanked : (String → ℕ) → Type 0
  IsRanked rank = (n : String) → resettable (named n) ≡ false → height rank (underlying n) < rank n

  emit_struct-joined :
      (emit : Access → GoType → Option Stmts) (a : Access) (x : String) (t : GoType) (fs : Fields)
      (xs ys : Stmts)
      → emit (sel a x) t ≡ some xs
      → emit_struct emit a fs ≡ some ys
      → emit_struct emit a (Fields.field x t fs) ≡ some (append xs ys)
  unfolding emit_struct
  emit_struct-joined emit a x t fs xs ys p q = rw (emit_struct, p, q)

  emit_struct-total :
      (rank : String → ℕ) (f : ℕ) (emit : Access → GoType → Option Stmts)
      → ((a : Access) (t : GoType) → height rank t < f → (xs : Stmts) × (emit a t ≡ some xs))
      → (a : Access) (fs : Fields) → height_fields rank fs < f
      → (xs : Stmts) × (emit_struct emit a fs ≡ some xs)
  unfolding emit_struct height
  emit_struct-total rank f emit h a Fields.nil l = (Stmts.nil, refl)
  emit_struct-total rank f emit h a (Fields.field x t fs) l =
      let (xs, p) = h (sel a x) t (omega arith) in
      let (ys, q) = emit_struct-total rank f emit h a fs (omega arith) in
      (append xs ys, emit_struct-joined emit a x t fs xs ys p q)

  -- If no named type without `Reset` is built from itself, then as much fuel as the type is high is
  -- enough: the generator ends with a body.
  pub emit_field-total :
      (rank : String → ℕ)
      → IsRanked rank
      → (fuel : ℕ) (a : Access) (t : GoType) → height rank t < fuel
      → (xs : Stmts) × (emit_field resettable underlying fuel a t ≡ some xs)
  unfolding emit_field height
  emit_field-total rank r zero a t l = absurd (omega arith)
  emit_field-total rank r (suc fuel) a (basic b) l = (_, refl)
  emit_field-total rank r (suc fuel) a slice l = (_, refl)
  emit_field-total rank r (suc fuel) a map l = (_, refl)
  emit_field-total rank r (suc fuel) a interface l = (_, refl)
  emit_field-total rank r (suc fuel) a opaque l = (_, refl)
  emit_field-total rank r (suc fuel) a (pointer t) l = elim (Bool-cases (resettable (pointer t))) [
    | inl e ↦ (one (if_not_nil a (one (call_reset a))), rw e)
    | inr e ↦
        let (xs, p) = emit_field-total rank r fuel (deref a) t (ground arith) in
        (one (if_not_nil a xs), rw (e, p))
  ]
  emit_field-total rank r (suc fuel) a (named n) l = elim (Bool-cases (resettable (named n))) [
    | inl e ↦ (one (call_reset a), rw e)
    | inr e ↦
        let (xs, p) = emit_field-total rank r fuel a (underlying n) (ground (arith, r n e)) in
        (xs, rw (e, p))
  ]
  emit_field-total rank r (suc fuel) a (struct fs) l =
      emit_struct-total rank fuel (emit_field resettable underlying fuel)
        (emit_field-total rank r fuel) a fs (omega arith)

  -- To emit the type, `n` has to be emitted.
  mutual
    pub data Needs (n : String) : GoType → Type 0 where
      this : (m : String) → m ≡ n → Needs n (named m)
      through_name :
          (m : String) → resettable (named m) ≡ false → Needs n (underlying m) → Needs n (named m)
      through_pointer :
          (t : GoType) → resettable (pointer t) ≡ false → Needs n t → Needs n (pointer t)
      through_struct : (fs : Fields) → NeedsField n fs → Needs n (struct fs)

    pub data NeedsField (n : String) : Fields → Type 0 where
      here :
          (f : String) (t : GoType) (fs : Fields) → Needs n t → NeedsField n (Fields.field f t fs)
      there :
          (f : String) (t : GoType) (fs : Fields)
          → NeedsField n fs
          → NeedsField n (Fields.field f t fs)

  emit_struct-none :
      (n : String) (emit : Access → GoType → Option Stmts)
      → ((a : Access) (t : GoType) → Needs n t → emit a t ≡ none)
      → (a : Access) (fs : Fields) → NeedsField n fs
      → emit_struct emit a fs ≡ none
  unfolding emit_struct
  emit_struct-none n emit h a _ (here f t fs x) = rw (emit_struct, h (sel a f) t x)
  emit_struct-none n emit h a _ (there f t fs x) =
      rest (emit (sel a f) t) (emit_struct-none n emit h a fs x)
    where
      rest :
          (o : Option Stmts)
          → emit_struct emit a fs ≡ none
          → ◌≡◌ {A = Option Stmts}
              (elim o [ none ↦ none | some xs ↦ Option.map (append xs) (emit_struct emit a fs) ])
              none
      rest none q = refl
      rest (some xs) q = rw q

  -- If a named type without `Reset` is built from itself, through structs, pointers and names without
  -- `Reset`, then no fuel is enough for a type that needs it: the generator does not end.
  pub emit_field-never :
      (n : String)
      → resettable (named n) ≡ false
      → Needs n (underlying n)
      → (fuel : ℕ) (a : Access) (t : GoType) → Needs n t
      → emit_field resettable underlying fuel a t ≡ none
  unfolding emit_field
  emit_field-never n r c zero a t x = refl
  emit_field-never n r c (suc fuel) a _ (this m e) =
      rw (subst (λ k. resettable (named k) ≡ false) (sym e) r) (
        emit_field-never n r c fuel a (underlying m)
          (subst (λ k. Needs n (underlying k)) (sym e) c))
  emit_field-never n r c (suc fuel) a _ (through_name m e x) =
      rw e (emit_field-never n r c fuel a (underlying m) x)
  emit_field-never n r c (suc fuel) a _ (through_pointer t e x) =
      rw (e, emit_field-never n r c fuel (deref a) t x)
  emit_field-never n r c (suc fuel) a _ (through_struct fs x) =
      emit_struct-none n (emit_field resettable underlying fuel) (emit_field-never n r c fuel) a fs
        x
