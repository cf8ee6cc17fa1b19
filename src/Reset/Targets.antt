-- ===== src/Reset/Targets.antt =====
-- cmd/reset/main.go: which structs get a `Reset`, the file of a package, and a run over the packages.
-- `strings`, `sort`, `unicode`, `path/filepath`, `go/format`, `go/packages` and the file system are
-- parameters. Of a parsed file stands what the generator asks for.
pub mod Files
mod Tests
use Prim.Native.String.{◌++◌ as concat}
use mathlib.Core.Option
use metrics_alerting_service.Prelude.{
  ℕ, zero, suc, String, Bool, true, false, not, ◌&&◌, ◌||◌, Option, none, some, List, [], ◌∷◌, ◌++◌,
  ◌==◌, if◌then◌else◌,
}
use metrics_alerting_service.Reset.{
  GoType, named, struct, Fields, Method, receiver, Stmts, emit_field, has_or_will_have_reset, join,
  print_stmts,
}

-- A type declaration; `object` is the type of the types.TypeName that it defines.
pub record TypeSpec : Type 0 where
  pub name : String
  pub is_struct_type : Bool
  pub doc : Option (List String)
  pub object : Option GoType

pub data Decl : Type 0 where
  gen_decl : (is_type : Bool) → (doc : Option (List String)) → List (Option TypeSpec) → Decl
  other_decl : Decl

pub record File : Type 0 where
  pub is_generated : Bool
  pub decls : List Decl

pub record Package : Type 0 where
  pub name : String
  pub pkg_path : String
  pub go_files : List String
  pub syntax : List File

pub record Target : Type 0 where
  pub name : String
  pub qual_name : String
  pub st : Fields

pub record PkgWork : Type 0 where
  pub pkg : Package
  pub targets : List Target

-- what the generator calls
pub record Tools (FileSystem : Type 0) : Type 1 where
  pub trim_space : String → String
  pub trim_slashes : String → String
  -- the first rune of a text, if it has one
  pub first_rune : String → Option String
  pub to_lower : String → String
  pub sort_targets : List Target → List Target
  pub sort_work : List PkgWork → List PkgWork
  pub dir : String → String
  pub join_path : String → String → String
  pub format_source : String → Option String
  pub methods : GoType → List Method
  pub underlying : String → GoType
  pub write_file : String → String → FileSystem → Bool × FileSystem

-- How a run ends; `diverges` if a recursion of `emitField` has not ended.
pub data Verdict : Type 0 where
  diverges finished load_failed : Verdict
  has_errors : ℕ → Verdict
  format_failed no_go_files write_failed : (pkg_path : String) → Verdict

unfoldable pub generated_file : String
generated_file = "reset.gen.go"

-- `willHave`, as a set of qualified names
will_have : List Target → String → Bool
will_have [] n = false
will_have (t ∷ ts) n = t.qual_name == n || will_have ts n

module _ {FileSystem : Type 0} (tools : Tools FileSystem) where
  has_marker : List String → Bool
  has_marker [] = false
  has_marker (c ∷ cs) = tools.trim_space (tools.trim_slashes c) == "generate:reset" || has_marker cs

  unfoldable pub comment_has_marker : Option (List String) → Bool
  unfolding has_marker
  comment_has_marker none = false
  comment_has_marker (some cs) = has_marker cs

  of_struct : TypeSpec → String → GoType → List Target
  of_struct s n (struct fs) = record { name = s.name; qual_name = n; st = fs } ∷ []
  of_struct s n _ = []

  of_object : TypeSpec → Option GoType → List Target
  of_object s (some (named n)) = of_struct s n (tools.underlying n)
  of_object s _ = []

  -- the body of the loop over `gd.Specs`
  unfoldable pub of_spec : Option (List String) → Option TypeSpec → List Target
  unfolding comment_has_marker of_struct of_object
  of_spec decl_doc none = []
  of_spec decl_doc (some s) =
      if not s.is_struct_type
      then []
      else if not (comment_has_marker s.doc) && not (comment_has_marker decl_doc)
      then []
      else of_object s s.object

  of_specs : Option (List String) → List (Option TypeSpec) → List Target
  unfolding of_spec
  of_specs d [] = []
  of_specs d (s ∷ ss) = of_spec d s ++ of_specs d ss

  of_decls : List Decl → List Target
  unfolding of_specs
  of_decls [] = []
  of_decls (other_decl ∷ ds) = of_decls ds
  of_decls (gen_decl is_type doc specs ∷ ds) =
      let rest = of_decls ds in if is_type then of_specs doc specs ++ rest else rest

  of_files : List File → List Target
  unfolding of_decls
  of_files [] = []
  of_files (f ∷ fs) =
      let rest = of_files fs in if f.is_generated then rest else of_decls f.decls ++ rest

  unfoldable pub find_targets : Package → List Target
  unfolding of_files
  find_targets p = tools.sort_targets (of_files p.syntax)

  receiver_name : String → String
  receiver_name type_name = elim (tools.first_rune type_name) [
    | none ↦ "r"
    | some r ↦ tools.to_lower r
  ]

  -- `Reset` of one target: its comment, its header, its check of nil and its body
  render_target : Target → Stmts → String
  unfolding join print_stmts receiver_name
  render_target t xs =
      let recv = receiver_name t.name in
      join (
        "\n// Reset сбрасывает поля "
        ∷ t.name
        ∷ " к нулевым значениям.\n"
        ∷ "func ("
        ∷ recv
        ∷ " *"
        ∷ t.name
        ∷ ") Reset() {\n"
        ∷ "\tif "
        ∷ recv
        ∷ " == nil {\n\t\treturn\n\t}\n"
        ∷ print_stmts "\t" xs
        ∷ "}\n"
        ∷ [])

  module _ (fuel : ℕ) (will : String → Bool) where
    -- the loop over the targets; `none` if a body does not end
    render_targets : List Target → Option String
    unfolding render_target emit_field has_or_will_have_reset receiver_name
    render_targets [] = some ""
    render_targets (t ∷ ts) =
        elim (emit_field (has_or_will_have_reset tools.methods will) tools.underlying fuel
          (receiver (receiver_name t.name)) (struct t.st)) [
            | none ↦ none
            | some xs ↦ Option.map (concat (render_target t xs)) (render_targets ts)
          ]

    unfoldable pub render_package : String → List Target → Option String
    unfolding render_targets join
    render_package pkg_name targets =
        Option.map
          (λ body. join (
            "// Code generated by cmd/reset; DO NOT EDIT." ∷ "\n\npackage " ∷ pkg_name ∷ "\n" ∷ body
            ∷ []))
          (render_targets targets)

  module _ (next : FileSystem → Verdict × FileSystem) (p : Package) where
    pub after_write : Bool × FileSystem → Verdict × FileSystem
    after_write (true, fs) = next fs
    after_write (false, fs) = (write_failed p.pkg_path, fs)

    -- `packageDir` and what follows it
    pub write_package : String → FileSystem → List String → Verdict × FileSystem
    unfolding after_write generated_file
    write_package src fs [] = (no_go_files p.pkg_path, fs)
    write_package src fs (f ∷ _) =
        after_write (tools.write_file (tools.join_path (tools.dir f) generated_file) src fs)

    pub formatted : FileSystem → Option String → Verdict × FileSystem
    unfolding write_package
    formatted fs none = (format_failed p.pkg_path, fs)
    formatted fs (some src) = write_package src fs p.go_files

    pub rendered : FileSystem → Option String → Verdict × FileSystem
    unfolding formatted
    rendered fs none = (diverges, fs)
    rendered fs (some raw) = formatted fs (tools.format_source raw)

  -- the loop of `run` over the packages with targets
  unfoldable pub write_packages :
      ℕ → (String → Bool) → List PkgWork → FileSystem → Verdict × FileSystem
  unfolding render_package rendered
  write_packages fuel will [] fs = (finished, fs)
  write_packages fuel will (w ∷ ws) fs =
      rendered (write_packages fuel will ws) w.pkg fs
        (render_package fuel will w.pkg.name w.targets)

  pub with_work : Package → List Target → List PkgWork → List PkgWork
  with_work p [] ws = ws
  with_work p (t ∷ ts) ws = record { pkg = p; targets = t ∷ ts } ∷ ws

  pub find_work : List Package → List PkgWork
  unfolding with_work
  find_work [] = []
  find_work (p ∷ ps) = with_work p (find_targets p) (find_work ps)

  all_targets : List PkgWork → List Target
  all_targets [] = []
  all_targets (w ∷ ws) = w.targets ++ all_targets ws

  -- `run`, on what `packages.Load` returns and on the number of errors that the packages have
  unfoldable pub run : ℕ → Option (List Package) → ℕ → FileSystem → Verdict × FileSystem
  unfolding will_have find_work find_targets all_targets write_packages
  run fuel none errors fs = (load_failed, fs)
  run fuel (some pkgs) (suc n) fs = (has_errors (suc n), fs)
  run fuel (some pkgs) zero fs =
      let work = find_work pkgs in
      write_packages fuel (will_have (all_targets work)) (tools.sort_work work) fs
