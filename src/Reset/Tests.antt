-- ===== src/Reset/Tests.antt =====
-- The bodies that the generator emits for a struct like that of its own test, and its theorems at
-- concrete inputs.
use metrics_alerting_service.Prelude.{String, arith, ◌<◌, ◌≡◌, refl, Bool, false, none, some, []}
use metrics_alerting_service.Reset.{
  GoType, basic, pointer, named, struct, Fields, numeric, receiver, sel, deref, Stmts, emit_basic,
  emit_struct, emit_field, append, one, set_zero, if_not_nil, join, print_access, print_stmt,
  print_stmts,
}
use metrics_alerting_service.Reset.Termination.{
  height, IsRanked, Needs, this, through_pointer, through_struct, here, emit_field-total,
  emit_field-never,
}
use metrics_alerting_service.Reset.Safety.{SafeStmts, emit_field-IsSafe}

abbrev nothing_has_reset : GoType → Bool
nothing_has_reset _ = false

-- `type NoReset struct { X int }`
abbrev plain_struct : GoType
plain_struct = struct (Fields.field "X" (basic numeric) Fields.nil)

abbrev to_plain : String → GoType
to_plain _ = plain_struct

-- `struct { N *NoReset }`
abbrev with_pointer : Fields
with_pointer = Fields.field "N" (pointer (named "x.NoReset")) Fields.nil

abbrev plain_body : Stmts
plain_body = one (
    if_not_nil (sel (receiver "s") "N") (one (set_zero (sel (deref (sel (receiver "s") "N")) "X"))))

with_pointer-emitted :
    emit_field nothing_has_reset to_plain 5 (receiver "s") (struct with_pointer) ≡ some plain_body
unfolding emit_field emit_struct emit_basic append
with_pointer-emitted = refl

plain_body-printed : print_stmts "\t" plain_body ≡ "\tif s.N != nil {\n\t\t(*s.N).X = 0\n\t}\n"
unfolding print_stmts print_stmt print_access join
plain_body-printed = refl

emit_field-IsSafe_example : SafeStmts "s" [] plain_body
emit_field-IsSafe_example =
    emit_field-IsSafe nothing_has_reset to_plain "s" 5 with_pointer plain_body with_pointer-emitted

to_plain-IsRanked : IsRanked nothing_has_reset to_plain (λ _. 2)
unfolding height
to_plain-IsRanked n e = ground arith

with_pointer-low : height nothing_has_reset to_plain (λ _. 2) (struct with_pointer) < 5
unfolding height
with_pointer-low = omega arith

emit_field-total_example :
    (xs : Stmts) × (emit_field nothing_has_reset to_plain 5 (receiver "s") (struct with_pointer)
      ≡ some xs)
emit_field-total_example =
    emit_field-total nothing_has_reset to_plain (λ _. 2) to_plain-IsRanked 5 (receiver "s")
      (struct with_pointer) with_pointer-low

-- `type node struct { next *node }`
abbrev node : Fields
node = Fields.field "next" (pointer (named "x.node")) Fields.nil

abbrev to_node : String → GoType
to_node _ = struct node

node-IsNeeded : Needs nothing_has_reset to_node "x.node" (struct node)
node-IsNeeded = through_struct node (
    here "next" (pointer (named "x.node")) Fields.nil
      (through_pointer (named "x.node") refl (this "x.node" refl)))

emit_field-never_example :
    emit_field nothing_has_reset to_node 1000
      (receiver "l")
      (struct (Fields.field "head" (pointer (named "x.node")) Fields.nil))
    ≡ none
emit_field-never_example =
    emit_field-never nothing_has_reset to_node "x.node" refl node-IsNeeded 1000 (receiver "l")
      (struct (Fields.field "head" (pointer (named "x.node")) Fields.nil))
      (through_struct (Fields.field "head" (pointer (named "x.node")) Fields.nil) (
        here "head" (pointer (named "x.node")) Fields.nil
          (through_pointer (named "x.node") refl (this "x.node" refl))))
