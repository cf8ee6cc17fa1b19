-- ===== src/Staticlint/Tests.antt =====
-- A package main with a helper: what the two analysers report of it.
use mathlib.Core.List.{Memᴰ}
use metrics_alerting_service.Prelude.{
  ℕ, ◌+◌, ◌≡◌, ◌↔◌, refl, false, none, some, List, [], ◌∷◌, ◌==◌,
}
use metrics_alerting_service.Staticlint.{
  builtin, func, ident, selector, Node, call_expr, other_node, FuncDecl, File, Pass, Tools,
  concat_map, any_of, is_generated, is_skipped, check_file,
}
use metrics_alerting_service.Staticlint.Calls.{Terminates, Exits}
use metrics_alerting_service.Staticlint.Walk.{IsCallIn, IsEntrypoint}
use metrics_alerting_service.Staticlint.Reports.{IsMain, nofatal-Iff, osexit-Iff}
use metrics_alerting_service.Staticlint.Nofatal
use metrics_alerting_service.Staticlint.Osexit

-- a body is the nodes in it
abbrev tools : Tools (List Node)
tools = record {
  inspect = λ body. body;
  has_prefix = λ text prefix. text == prefix;
  has_suffix = λ text suffix. text == suffix;
  contains = λ text part. text == part;
}

-- `os.Exit`, `log.Fatalf` and `panic`, one after the other
abbrev calls : ℕ → List Node
calls n =
    call_expr n (selector "Exit" (func (some "os") "Exit"))
    ∷ call_expr (n + 1) (selector "Fatalf" (func (some "log") "Fatalf"))
    ∷ other_node
    ∷ call_expr (n + 2) (ident "panic" builtin)
    ∷ []

abbrev main_func : FuncDecl (List Node)
main_func = record { has_recv = false; name = "main"; body = some (calls 10) }

abbrev helper : FuncDecl (List Node)
helper = record { has_recv = false; name = "helper"; body = some (calls 20) }

abbrev own_file : File (List Node)
own_file = record {
  filename = "main.go";
  comments = [];
  decls = some main_func ∷ none ∷ some helper ∷ [];
}

abbrev test_file : File (List Node)
test_file = record { filename = "_test.go"; comments = []; decls = some helper ∷ [] }

abbrev pass : Pass (List Node)
pass = record { pkg_name = "main"; files = test_file ∷ own_file ∷ [] }

nofatal-reports : Nofatal.run tools pass ≡ 21 ∷ 22 ∷ []
unfolding Nofatal.run Nofatal.check_decl Nofatal.is_entrypoint Nofatal.check_body Nofatal.of_node
    Nofatal.of_ident Nofatal.of_selector Nofatal.is_terminator concat_map any_of check_file
    is_skipped is_generated
nofatal-reports = refl

-- `os.Exit` in `helper` is reported by neither.
osexit-reports : Osexit.run tools pass ≡ 10 ∷ []
unfolding Osexit.run Osexit.check_decl Osexit.check_body Osexit.of_node Osexit.of_uses concat_map
    any_of check_file is_skipped is_generated
osexit-reports = refl

nofatal-Iff_example :
    Memᴰ 21 (Nofatal.run tools pass)
    ↔ IsCallIn tools (λ fn. ¬ IsEntrypoint tools pass fn) Terminates pass 21
nofatal-Iff_example = nofatal-Iff tools pass 21

osexit-Iff_example :
    Memᴰ 10 (Osexit.run tools pass)
    ↔ ((pass.pkg_name ≡ "main") × IsCallIn tools (IsMain tools) Exits pass 10)
osexit-Iff_example = osexit-Iff tools pass 10
