-- ===== src/Reset.antt =====
-- cmd/reset/main.go, the generator of `Reset` methods: the text of a method from the type of a struct.
-- go/types is a parameter: `methods` gives the method set of a type and `underlying` what stands
-- behind a named type, which may go round in a circle; so the recursion of `emitField` is on fuel, and
-- `none` says that it has not ended. The text is built as statements first (`emit_field`), and
-- printed (`print_stmts`).
pub mod Targets
pub mod Termination
pub mod Safety
mod Tests
use Prim.Native.String.{◌++◌ as concat}
use mathlib.Core.Option
use metrics_alerting_service.Prelude.{
  ℕ, zero, suc, String, Bool, true, false, ◌&&◌, ◌||◌, Option, none, some, List, [], ◌∷◌, ◌==◌, eqb,
  if◌then◌else◌,
}

-- types.Basic by the flags of its `Info`
pub data Basic : Type 0 where
  boolean text numeric untyped : Basic

-- types.Type as far as the generator looks at it; a named type by its qualified name; `opaque` is an
-- array, a channel, a signature or a tuple.
mutual
  pub data GoType : Type 0 where
    basic : Basic → GoType
    slice map interface opaque : GoType
    pointer : GoType → GoType
    named : String → GoType
    struct : Fields → GoType

  pub data Fields : Type 0 where
    nil : Fields
    field : String → GoType → Fields → Fields

-- A method of a method set: its name, and how many parameters and results it has if its object is a
-- signature.
pub record Method : Type 0 where
  pub name : String
  pub signature : Option (ℕ × ℕ)

-- The access expressions `recv`, `a.f` and `(*a)`.
pub data Access : Type 0 where
  receiver : String → Access
  sel : Access → String → Access
  deref : Access → Access

-- The statements of a method's body.
mutual
  pub data Stmt : Type 0 where
    set_false set_empty set_zero : Access → Stmt
    truncate clear call_reset : Access → Stmt
    if_not_nil : Access → Stmts → Stmt
    if_resetter : Access → Stmt

  pub data Stmts : Type 0 where
    nil : Stmts
    cons : Stmt → Stmts → Stmts

unfoldable pub append : Stmts → Stmts → Stmts
append nil ys = ys
append (cons x xs) ys = cons x (append xs ys)

abbrev pub one : Stmt → Stmts
one s = cons s nil

no_parameters : Option (ℕ × ℕ) → Bool
no_parameters none = false
no_parameters (some (params, results)) = eqb params 0 && eqb results 0

-- `hasResetMethod`, on a method set
has_reset_method : List Method → Bool
unfolding no_parameters
has_reset_method [] = false
has_reset_method (m ∷ ms) = (m.name == "Reset" && no_parameters m.signature) || has_reset_method ms

is_pointer : GoType → Bool
is_pointer (pointer t) = true
is_pointer _ = false

-- the last switch of `hasOrWillHaveReset`
named_in : (String → Bool) → GoType → Bool
named_in will_have (named n) = will_have n
named_in will_have (pointer (named n)) = will_have n
named_in will_have _ = false

unfoldable pub has_or_will_have_reset : (GoType → List Method) → (String → Bool) → GoType → Bool
unfolding has_reset_method is_pointer named_in
has_or_will_have_reset methods will_have t =
    has_reset_method (methods t)
    || ((if is_pointer t then false else has_reset_method (methods (pointer t)))
        || named_in will_have t)

emit_basic : Access → Basic → Stmts
emit_basic a boolean = one (set_false a)
emit_basic a text = one (set_empty a)
emit_basic a numeric = one (set_zero a)
emit_basic a untyped = nil

-- `emitStruct`, over the `emitField` that it calls
unfoldable pub emit_struct : (Access → GoType → Option Stmts) → Access → Fields → Option Stmts
emit_struct emit a nil = some nil
emit_struct emit a (field f t fs) = elim (emit (sel a f) t) [
  | none ↦ none
  | some xs ↦ Option.map (append xs) (emit_struct emit a fs)
]

module _ (resettable : GoType → Bool) (underlying : String → GoType) where
  -- `emitField`, where `resettable` is `hasOrWillHaveReset`
  unfoldable pub emit_field : ℕ → Access → GoType → Option Stmts
  unfolding emit_basic
  emit_field zero a t = none
  emit_field (suc fuel) a (basic b) = some (emit_basic a b)
  emit_field (suc fuel) a slice = some (one (truncate a))
  emit_field (suc fuel) a map = some (one (clear a))
  emit_field (suc fuel) a (pointer t) =
      let inner = emit_field fuel (deref a) t in
      if resettable (pointer t)
      then some (one (if_not_nil a (one (call_reset a))))
      else Option.map (λ xs. one (if_not_nil a xs)) inner
  emit_field (suc fuel) a (named n) =
      let inner = emit_field fuel a (underlying n) in
      if resettable (named n) then some (one (call_reset a)) else inner
  emit_field (suc fuel) a (struct fs) = emit_struct (emit_field fuel) a fs
  emit_field (suc fuel) a interface = some (one (if_resetter a))
  emit_field (suc fuel) a opaque = some nil

-- the pieces of a `Fprintf`, one after the other
unfoldable pub join : List String → String
join [] = ""
join (s ∷ ss) = concat s (join ss)

unfoldable pub print_access : Access → String
unfolding join
print_access (receiver r) = r
print_access (sel a f) = join (print_access a ∷ "." ∷ f ∷ [])
print_access (deref a) = join ("(*" ∷ print_access a ∷ ")" ∷ [])

unfoldable mutual
  unfolding join print_access

  pub print_stmt : String → Stmt → String
  print_stmt indent (set_false a) = join (indent ∷ print_access a ∷ " = false\n" ∷ [])
  print_stmt indent (set_empty a) = join (indent ∷ print_access a ∷ " = \"\"\n" ∷ [])
  print_stmt indent (set_zero a) = join (indent ∷ print_access a ∷ " = 0\n" ∷ [])
  print_stmt indent (truncate a) =
      join (indent ∷ print_access a ∷ " = " ∷ print_access a ∷ "[:0]\n" ∷ [])
  print_stmt indent (clear a) = join (indent ∷ "clear(" ∷ print_access a ∷ ")\n" ∷ [])
  print_stmt indent (call_reset a) = join (indent ∷ print_access a ∷ ".Reset()\n" ∷ [])
  print_stmt indent (if_not_nil a xs) = join (
      indent
      ∷ "if "
      ∷ print_access a
      ∷ " != nil {\n"
      ∷ print_stmts (concat indent "\t") xs
      ∷ indent
      ∷ "}\n"
      ∷ [])
  print_stmt indent (if_resetter a) = join (
      indent
      ∷ "if r, ok := "
      ∷ print_access a
      ∷ ".(interface{ Reset() }); ok {\n"
      ∷ indent
      ∷ "\tr.Reset()\n"
      ∷ indent
      ∷ "}\n"
      ∷ [])

  pub print_stmts : String → Stmts → String
  print_stmts indent nil = ""
  print_stmts indent (cons x xs) = concat (print_stmt indent x) (print_stmts indent xs)
