-- ===== src/Staticlint/Nofatal.antt =====
-- cmd/staticlint/nofatal/nofatal.go. A report is the position of the call.
use metrics_alerting_service.Prelude.{
  ℕ, String, Bool, true, false, ◌&&◌, Option, none, some, List, [], ◌∷◌, ◌==◌, if◌then◌else◌,
}
use metrics_alerting_service.Staticlint.{
  Object, builtin, func, ident, selector, other_callee, Node, call_expr, other_node, FuncDecl, Pass,
  Tools, concat_map, any_of, check_file,
}

abbrev pub log_terminators : List String
log_terminators = "Fatal" ∷ "Fatalf" ∷ "Fatalln" ∷ "Panic" ∷ "Panicf" ∷ "Panicln" ∷ []

unfoldable pub is_terminator : String → Bool
unfolding any_of
is_terminator name = any_of (λ t. t == name) log_terminators

unfoldable pub of_ident : ℕ → String → Object → List ℕ
of_ident pos name builtin = if name == "panic" then pos ∷ [] else []
of_ident pos name _ = []

unfoldable pub of_selector : ℕ → String → Object → List ℕ
of_selector pos name (func (some path) _) =
    if is_terminator name && (path == "log") then pos ∷ [] else []
of_selector pos name _ = []

-- the callback of `checkBody`
unfoldable pub of_node : Node → List ℕ
unfolding of_ident of_selector
of_node other_node = []
of_node (call_expr pos (ident name uses)) = of_ident pos name uses
of_node (call_expr pos (selector name uses)) = of_selector pos name uses
of_node (call_expr pos other_callee) = []

module _ {Body : Type 0} (tools : Tools Body) where
  unfoldable pub is_entrypoint : FuncDecl Body → Bool → Bool
  is_entrypoint fn is_main_pkg =
      if fn.has_recv
      then false
      else if fn.name == "init"
      then true
      else is_main_pkg && fn.name == "main"

  unfoldable pub check_body : Option Body → List ℕ
  unfolding concat_map of_node
  check_body none = []
  check_body (some body) = concat_map of_node (tools.inspect body)

  -- the body of the loop over `file.Decls`
  unfoldable pub check_decl : Bool → Option (FuncDecl Body) → List ℕ
  unfolding is_entrypoint check_body
  check_decl is_main_pkg none = []
  check_decl is_main_pkg (some fn) = if is_entrypoint fn is_main_pkg then [] else check_body fn.body

  unfoldable pub run : Pass Body → List ℕ
  unfolding concat_map check_file check_decl
  run pass = concat_map (check_file tools (check_decl (pass.pkg_name == "main"))) pass.files
