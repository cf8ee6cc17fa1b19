-- ===== src/Staticlint/Osexit.antt =====
-- cmd/staticlint/osexit/osexit.go. A report is the position of the call.
use metrics_alerting_service.Prelude.{
  ℕ, ◌&&◌, Option, none, some, List, [], ◌∷◌, ◌==◌, not, ◌||◌, if◌then◌else◌,
}
use metrics_alerting_service.Staticlint.{
  Object, func, selector, Node, call_expr, FuncDecl, Pass, Tools, concat_map, check_file,
}

unfoldable pub of_uses : ℕ → Object → List ℕ
of_uses pos (func (some path) name) = if path == "os" && (name == "Exit") then pos ∷ [] else []
of_uses pos _ = []

-- the callback of `checkBody`
unfoldable pub of_node : Node → List ℕ
unfolding of_uses
of_node (call_expr pos (selector name uses)) = of_uses pos uses
of_node _ = []

module _ {Body : Type 0} (tools : Tools Body) where
  unfoldable pub check_body : Option Body → List ℕ
  unfolding concat_map of_node
  check_body none = []
  check_body (some body) = concat_map of_node (tools.inspect body)

  -- the body of the loop over `file.Decls`
  unfoldable pub check_decl : Option (FuncDecl Body) → List ℕ
  unfolding check_body
  check_decl none = []
  check_decl (some fn) = if fn.has_recv || not (fn.name == "main") then [] else check_body fn.body

  unfoldable pub run : Pass Body → List ℕ
  unfolding concat_map check_file check_decl
  run pass =
      if not (pass.pkg_name == "main")
      then []
      else concat_map (check_file tools check_decl) pass.files
