-- ===== src/Reset/Safety.antt =====
-- What a generated body touches. An access is safe if it starts at the receiver and each pointer on
-- its way stands among those that an enclosing `if` has found not to be nil.
use metrics_alerting_service.Prelude.{
  ℕ, zero, suc, String, ◌≡◌, subst, Bool, true, false, Option, none, some, List, [], ◌∷◌,
  if◌then◌else◌,
}
use mathlib.Core.List.{Mem, mem-cons_self, mem-cons_of_mem}
use mathlib.Core.Option
use metrics_alerting_service.Reset.{
  GoType, basic, slice, map, interface, opaque, pointer, named, struct, Fields, Basic, boolean,
  text, numeric, untyped, Access, receiver, sel, deref, Stmt, set_false, set_empty, set_zero,
  truncate, clear, call_reset, if_not_nil, if_resetter, Stmts, append, one, emit_basic, emit_struct,
  emit_field,
}

-- `a` starts at the receiver `r`, and dereferences only what `checked` holds.
pub data IsSafe (r : String) (checked : List Access) : Access → Type 0 where
  root : IsSafe r checked (receiver r)
  under_field : (a : Access) (f : String) → IsSafe r checked a → IsSafe r checked (sel a f)
  under_pointer : (a : Access) → Mem a checked → IsSafe r checked a → IsSafe r checked (deref a)

-- Each statement works on a safe access; in the body of `if a != nil`, `a` is checked.
mutual
  pub data SafeStmt (r : String) : List Access → Stmt → Type 0 where
    sets_false :
        (checked : List Access) (a : Access) → IsSafe r checked a → SafeStmt r checked (set_false a)
    sets_empty :
        (checked : List Access) (a : Access) → IsSafe r checked a → SafeStmt r checked (set_empty a)
    sets_zero :
        (checked : List Access) (a : Access) → IsSafe r checked a → SafeStmt r checked (set_zero a)
    truncates :
        (checked : List Access) (a : Access) → IsSafe r checked a → SafeStmt r checked (truncate a)
    clears :
        (checked : List Access) (a : Access) → IsSafe r checked a → SafeStmt r checked (clear a)
    calls :
        (checked : List Access) (a : Access)
        → IsSafe r checked a
        → SafeStmt r checked (call_reset a)
    asks :
        (checked : List Access) (a : Access)
        → IsSafe r checked a
        → SafeStmt r checked (if_resetter a)
    checks :
        (checked : List Access) (a : Access) (xs : Stmts)
        → IsSafe r checked a
        → SafeStmts r (a ∷ checked) xs
        → SafeStmt r checked (if_not_nil a xs)

  pub data SafeStmts (r : String) : List Access → Stmts → Type 0 where
    nothing : (checked : List Access) → SafeStmts r checked Stmts.nil
    then_do :
        (checked : List Access) (x : Stmt) (xs : Stmts)
        → SafeStmt r checked x
        → SafeStmts r checked xs
        → SafeStmts r checked (Stmts.cons x xs)

weaker-IsSafe : (r : String) (c : List Access) (b a : Access) → IsSafe r c a → IsSafe r (b ∷ c) a
weaker-IsSafe r c b _ root = root
weaker-IsSafe r c b _ (under_field a f s) = under_field a f (weaker-IsSafe r c b a s)
weaker-IsSafe r c b _ (under_pointer a m s) =
    under_pointer a (mem-cons_of_mem b m) (weaker-IsSafe r c b a s)

append-SafeStmts :
    (r : String) (c : List Access) (xs ys : Stmts)
    → SafeStmts r c xs
    → SafeStmts r c ys
    → SafeStmts r c (append xs ys)
unfolding append
append-SafeStmts r _ _ ys (nothing c) q = q
append-SafeStmts r _ _ ys (then_do c x xs s p) q =
    then_do c x (append xs ys) s (append-SafeStmts r c xs ys p q)

one-SafeStmts : (r : String) (c : List Access) (x : Stmt) → SafeStmt r c x → SafeStmts r c (one x)
one-SafeStmts r c x s = then_do c x Stmts.nil s (nothing c)

emit_basic-SafeStmts :
    (r : String) (c : List Access) (a : Access) (b : Basic)
    → IsSafe r c a
    → SafeStmts r c (emit_basic a b)
unfolding emit_basic
emit_basic-SafeStmts r c a boolean s = one-SafeStmts r c (set_false a) (sets_false c a s)
emit_basic-SafeStmts r c a text s = one-SafeStmts r c (set_empty a) (sets_empty c a s)
emit_basic-SafeStmts r c a numeric s = one-SafeStmts r c (set_zero a) (sets_zero c a s)
emit_basic-SafeStmts r c a untyped s = nothing c

-- What the generator has emitted is safe, if it has ended.
unfoldable IsSafeResult : String → List Access → Option Stmts → Type 0
IsSafeResult r c none = Unit
IsSafeResult r c (some xs) = SafeStmts r c xs

map-IsSafeResult :
    (r : String) (c d : List Access) (f : Stmts → Stmts) (o : Option Stmts)
    → ((xs : Stmts) → SafeStmts r c xs → SafeStmts r d (f xs))
    → IsSafeResult r c o
    → IsSafeResult r d (Option.map f o)
unfolding IsSafeResult
map-IsSafeResult r c d f none h s = tt
map-IsSafeResult r c d f (some xs) h s = h xs s

joined-IsSafeResult :
    (r : String) (c : List Access) (o p : Option Stmts)
    → IsSafeResult r c o
    → IsSafeResult r c p
    → IsSafeResult r c (elim o [ none ↦ none | some xs ↦ Option.map (append xs) p ])
unfolding IsSafeResult
joined-IsSafeResult r c none p s t = tt
joined-IsSafeResult r c (some xs) p s t =
    map-IsSafeResult r c c (append xs) p (λ ys q. append-SafeStmts r c xs ys s q) t

emit_struct-IsSafe :
    (r : String) (c : List Access) (emit : Access → GoType → Option Stmts)
    → ((a : Access) (t : GoType) → IsSafe r c a → IsSafeResult r c (emit a t))
    → (a : Access) (fs : Fields) → IsSafe r c a
    → IsSafeResult r c (emit_struct emit a fs)
unfolding emit_struct IsSafeResult
emit_struct-IsSafe r c emit h a Fields.nil s = nothing c
emit_struct-IsSafe r c emit h a (Fields.field f t fs) s =
    joined-IsSafeResult r c (emit (sel a f) t) (emit_struct emit a fs)
      (h (sel a f) t (under_field a f s)) (emit_struct-IsSafe r c emit h a fs s)

if-IsSafeResult :
    (r : String) (c : List Access) (b : Bool) (o p : Option Stmts)
    → IsSafeResult r c o
    → IsSafeResult r c p
    → IsSafeResult r c (if b then o else p)
if-IsSafeResult r c true o p s t = s
if-IsSafeResult r c false o p s t = t

module _ (resettable : GoType → Bool) (underlying : String → GoType) where
  emit_field-IsSafeResult :
      (r : String) (c : List Access) (fuel : ℕ) (a : Access) (t : GoType)
      → IsSafe r c a
      → IsSafeResult r c (emit_field resettable underlying fuel a t)
  unfolding emit_field IsSafeResult
  emit_field-IsSafeResult r c zero a t s = tt
  emit_field-IsSafeResult r c (suc fuel) a (basic b) s = emit_basic-SafeStmts r c a b s
  emit_field-IsSafeResult r c (suc fuel) a slice s =
      one-SafeStmts r c (truncate a) (truncates c a s)
  emit_field-IsSafeResult r c (suc fuel) a map s = one-SafeStmts r c (clear a) (clears c a s)
  emit_field-IsSafeResult r c (suc fuel) a interface s =
      one-SafeStmts r c (if_resetter a) (asks c a s)
  emit_field-IsSafeResult r c (suc fuel) a opaque s = nothing c
  emit_field-IsSafeResult r c (suc fuel) a (pointer t) s =
      if-IsSafeResult r c (resettable (pointer t)) _ _
        (one-SafeStmts r c (if_not_nil a (one (call_reset a))) (
          checks c a (one (call_reset a)) s
            (one-SafeStmts r (a ∷ c) (call_reset a) (calls (a ∷ c) a inside))))
        (map-IsSafeResult r (a ∷ c) c (λ xs. one (if_not_nil a xs)) _
          (λ xs p. one-SafeStmts r c (if_not_nil a xs) (checks c a xs s p))
          (emit_field-IsSafeResult r (a ∷ c) fuel (deref a) t
            (under_pointer a mem-cons_self inside)))
    where
      inside : IsSafe r (a ∷ c) a
      inside = weaker-IsSafe r c a a s
  emit_field-IsSafeResult r c (suc fuel) a (named n) s =
      if-IsSafeResult r c (resettable (named n)) _ _
        (one-SafeStmts r c (call_reset a) (calls c a s))
        (emit_field-IsSafeResult r c fuel a (underlying n) s)
  emit_field-IsSafeResult r c (suc fuel) a (struct fs) s =
      emit_struct-IsSafe r c (emit_field resettable underlying fuel)
        (λ b t q. emit_field-IsSafeResult r c fuel b t q) a fs s

  -- Every statement of a generated body works on an access that starts at the receiver and
  -- dereferences no pointer but those that an enclosing `if` has found not to be nil.
  pub emit_field-IsSafe :
      (r : String) (fuel : ℕ) (fs : Fields) (xs : Stmts)
      → emit_field resettable underlying fuel (receiver r) (struct fs) ≡ some xs
      → SafeStmts r [] xs
  unfolding IsSafeResult
  emit_field-IsSafe r fuel fs xs e =
      subst (IsSafeResult r []) e (emit_field-IsSafeResult r [] fuel (receiver r) (struct fs) root)
