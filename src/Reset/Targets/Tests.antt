-- ===== src/Reset/Targets/Tests.antt =====
-- A run of the generator over two packages, one with a marked struct, in a file system that is a list
-- of files.
use metrics_alerting_service.Prelude.{
  String, ◌≡◌, ◌≢◌, refl, Bool, true, false, none, some, List, [], ◌∷◌, ◌==◌, if◌then◌else◌, eq_iff,
  arith,
}
use metrics_alerting_service.Dict.{get, put, get-put}
use metrics_alerting_service.Reset.{GoType, basic, named, struct, Fields, numeric}
use metrics_alerting_service.Reset.Targets.{
  Tools, Package, TypeSpec, gen_decl, comment_has_marker, has_marker, of_spec, of_object, of_struct,
}
use metrics_alerting_service.Reset.Targets.Files.{WritesOne, SortAddsNone, IsNotGenerated}

abbrev Disk : Type 0
Disk = List (String × String)

abbrev marked_struct : GoType
marked_struct = struct (Fields.field "I" (basic numeric) Fields.nil)

abbrev tools : Tools Disk
tools = record {
  trim_space = λ s. if s == " generate:reset" then "generate:reset" else s;
  trim_slashes = λ s. if s == "// generate:reset" then " generate:reset" else s;
  first_rune = λ s. some "S";
  to_lower = λ r. "s";
  sort_targets = λ ts. ts;
  sort_work = λ ws. ws;
  dir = λ p. if p == "x/x.go" then "x" else "y";
  join_path = λ d f. if d == "x" then "x/reset.gen.go" else "y/reset.gen.go";
  format_source = λ s. some s;
  methods = λ _. [];
  underlying = λ _. marked_struct;
  write_file = λ p src disk. (true, put p src disk);
}

abbrev spec : TypeSpec
spec = record { name = "S"; is_struct_type = true; doc = none; object = some (named "x.S") }

abbrev marked : Package
marked = record {
  name = "x";
  pkg_path = "x";
  go_files = "x/x.go" ∷ [];
  syntax =
      record {
        is_generated = false;
        decls = gen_decl true (some ("// generate:reset" ∷ [])) (some spec ∷ none ∷ []) ∷ [];
      }
      ∷ [];
}

abbrev unmarked : Package
unmarked = record { name = "y"; pkg_path = "y"; go_files = "y/y.go" ∷ []; syntax = [] }

spec-IsTarget :
    of_spec tools (some ("// generate:reset" ∷ [])) (some spec)
    ≡ record { name = "S"; qual_name = "x.S"; st = Fields.field "I" (basic numeric) Fields.nil }
      ∷ []
unfolding of_spec of_object of_struct comment_has_marker has_marker
spec-IsTarget = refl

abbrev before : Disk
before = ("main.go", "package main") ∷ ("x/reset.gen.go", "old") ∷ []

disk-WritesOne : WritesOne tools get
disk-WritesOne p q src disk n = ground (arith, get-put p q src disk, eq_iff p q)

disk-SortAddsNone : SortAddsNone tools get
disk-SortAddsNone P ws a = a

main-IsNotGenerated : (p : Package) → IsNotGenerated tools get "main.go" p
main-IsNotGenerated p f rest e = elsewhere (tools.dir f == "x")
  where
    elsewhere :
        (b : Bool) → ◌≢◌ {A = String} "main.go" (if b then "x/reset.gen.go" else "y/reset.gen.go")
    elsewhere true q = cc
    elsewhere false q = cc
