-- ===== src/Staticlint.antt =====
-- cmd/staticlint, what its two analysers share: the walk over the files of a package, which skips
-- generated files and tests. go/ast, go/types and `strings` are parameters; `inspect` gives the nodes
-- of a body that `ast.Inspect` visits, since the callbacks always return true.
pub mod Analyzers
pub mod Nofatal
pub mod Osexit
pub mod Collect
pub mod Calls
pub mod Walk
pub mod Reports
mod Tests
use metrics_alerting_service.Prelude.{
  ℕ, String, Bool, true, false, ◌&&◌, ◌||◌, Option, none, some, List, [], ◌∷◌, ◌++◌, if◌then◌else◌,
}

-- What `TypesInfo.Uses` gives for a name; a function has the path of its package, if it is in one.
pub data Object : Type 0 where
  no_object builtin other_object : Object
  func : (path : Option String) → (name : String) → Object

-- `call.Fun`
pub data Callee : Type 0 where
  ident selector : (name : String) → Object → Callee
  other_callee : Callee

pub data Node : Type 0 where
  call_expr : (pos : ℕ) → Callee → Node
  other_node : Node

pub record FuncDecl (Body : Type 0) : Type 0 where
  pub has_recv : Bool
  pub name : String
  pub body : Option Body

pub record File (Body : Type 0) : Type 0 where
  pub filename : String
  pub comments : List (List String)
  -- a declaration that is no function is `none`
  pub decls : List (Option (FuncDecl Body))

pub record Pass (Body : Type 0) : Type 0 where
  pub pkg_name : String
  pub files : List (File Body)

pub record Tools (Body : Type 0) : Type 0 where
  pub inspect : Body → List Node
  pub has_prefix : String → String → Bool
  pub has_suffix : String → String → Bool
  pub contains : String → String → Bool

unfoldable pub concat_map {κ ℓ} : {A : Type κ} {B : Type ℓ} → (A → List B) → List A → List B
concat_map f [] = []
concat_map f (x ∷ xs) = f x ++ concat_map f xs

unfoldable pub any_of {ℓ} : {A : Type ℓ} → (A → Bool) → List A → Bool
any_of f [] = false
any_of f (x ∷ xs) = f x || any_of f xs

module _ {Body : Type 0} (tools : Tools Body) where
  unfoldable pub is_generated : File Body → Bool
  unfolding any_of
  is_generated file =
      any_of
        (any_of
          (λ text. tools.has_prefix text "// Code generated" && tools.contains text "DO NOT EDIT."))
        file.comments

  unfoldable pub is_skipped : File Body → Bool
  unfolding is_generated
  is_skipped file = is_generated file || tools.has_suffix file.filename "_test.go"

  -- The reports on one file; `check` is what the analyser does with a declaration.
  unfoldable pub check_file : (Option (FuncDecl Body) → List ℕ) → File Body → List ℕ
  unfolding is_skipped concat_map
  check_file check file = if is_skipped file then [] else concat_map check file.decls
