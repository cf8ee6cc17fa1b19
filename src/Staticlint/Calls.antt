-- ===== src/Staticlint/Calls.antt =====
-- Which nodes the callbacks of the analysers report.
use mathlib.Core.List.{Memᴰ}
use metrics_alerting_service.Prelude.{
  ℕ, String, Bool, true, false, ◌&&◌, none, some, [], ◌∷◌, ◌==◌, ◌≡◌, ◌↔◌, refl, eq_iff,
}
use metrics_alerting_service.Staticlint.{
  no_object, builtin, other_object, func, ident, selector, other_callee, Node, call_expr,
  other_node,
}
use metrics_alerting_service.Staticlint.Collect.{mem-if, mem-any_of}
use metrics_alerting_service.Staticlint.Nofatal
use metrics_alerting_service.Staticlint.Osexit

-- A call that ends the process: the built-in `panic`, or one of these functions of the package log.
pub data Terminates : Node → ℕ → Type 0 where
  panics : (pos : ℕ) → Terminates (call_expr pos (ident "panic" builtin)) pos
  logs :
      (pos : ℕ) (name f : String)
      → Memᴰ name ("Fatal" ∷ "Fatalf" ∷ "Fatalln" ∷ "Panic" ∷ "Panicf" ∷ "Panicln" ∷ [])
      → Terminates (call_expr pos (selector name (func (some "log") f))) pos

-- A call of os.Exit by a selector.
pub data Exits : Node → ℕ → Type 0 where
  exits :
      (pos : ℕ) (name : String)
      → Exits (call_expr pos (selector name (func (some "os") "Exit"))) pos

panic-Terminates :
    (pos p : ℕ) (name : String)
    → name ≡ "panic"
    → p ≡ pos
    → Terminates (call_expr pos (ident name builtin)) p
panic-Terminates pos p name e q = rw (e, q) (panics pos)

log-Terminates :
    (pos p : ℕ) (name path f : String)
    → Memᴰ name Nofatal.log_terminators
    → path ≡ "log"
    → p ≡ pos
    → Terminates (call_expr pos (selector name (func (some path) f))) p
log-Terminates pos p name path f m e q = rw (e, q) (logs pos name f m)

and-split : (a b : Bool) → (a && b) ≡ true → (a ≡ true) × (b ≡ true)
and-split true b h = (refl, h)
and-split false b h = cc

of_node-Terminates : (p : ℕ) (node : Node) → Memᴰ p (Nofatal.of_node node) → Terminates node p
unfolding Nofatal.of_node Nofatal.of_ident Nofatal.of_selector Nofatal.is_terminator
of_node-Terminates p (call_expr pos (ident name builtin)) m =
    let (e, q) = (mem-if (name == "panic") p pos).0 m in
    panic-Terminates pos p name ((eq_iff name "panic").0 e) q
of_node-Terminates p (call_expr pos (selector name (func (some path) f))) m =
    let (e, q) = (mem-if (Nofatal.is_terminator name && (path == "log")) p pos).0 m in
    let (t, l) = and-split (Nofatal.is_terminator name) (path == "log") e in
    log-Terminates pos p name path f ((mem-any_of name Nofatal.log_terminators).0 t)
      ((eq_iff path "log").0 l) q
of_node-Terminates p (call_expr pos (ident name no_object)) m = elim m [ ]
of_node-Terminates p (call_expr pos (ident name other_object)) m = elim m [ ]
of_node-Terminates p (call_expr pos (ident name (func path _))) m = elim m [ ]
of_node-Terminates p (call_expr pos (selector name no_object)) m = elim m [ ]
of_node-Terminates p (call_expr pos (selector name builtin)) m = elim m [ ]
of_node-Terminates p (call_expr pos (selector name other_object)) m = elim m [ ]
of_node-Terminates p (call_expr pos (selector name (func none f))) m = elim m [ ]
of_node-Terminates p (call_expr pos other_callee) m = elim m [ ]
of_node-Terminates p other_node m = elim m [ ]

Terminates-of_node : (p : ℕ) (node : Node) → Terminates node p → Memᴰ p (Nofatal.of_node node)
unfolding Nofatal.of_node Nofatal.of_ident Nofatal.of_selector Nofatal.is_terminator
Terminates-of_node p _ (panics pos) = Memᴰ.head refl
Terminates-of_node p _ (logs pos name f m) =
    rw ((mem-any_of name Nofatal.log_terminators).1 m) (Memᴰ.head refl)

pub mem-of_node : (p : ℕ) (node : Node) → Memᴰ p (Nofatal.of_node node) ↔ Terminates node p
mem-of_node p node = (of_node-Terminates p node, Terminates-of_node p node)

os-Exits :
    (pos p : ℕ) (name path f : String)
    → path ≡ "os"
    → f ≡ "Exit"
    → p ≡ pos
    → Exits (call_expr pos (selector name (func (some path) f))) p
os-Exits pos p name path f e g q = rw (e, g, q) (exits pos name)

of_node-Exits : (p : ℕ) (node : Node) → Memᴰ p (Osexit.of_node node) → Exits node p
unfolding Osexit.of_node Osexit.of_uses
of_node-Exits p (call_expr pos (selector name (func (some path) f))) m =
    let (e, q) = (mem-if (path == "os" && (f == "Exit")) p pos).0 m in
    let (s, x) = and-split (path == "os") (f == "Exit") e in
    os-Exits pos p name path f ((eq_iff path "os").0 s) ((eq_iff f "Exit").0 x) q
of_node-Exits p (call_expr pos (ident name uses)) m = elim m [ ]
of_node-Exits p (call_expr pos (selector name no_object)) m = elim m [ ]
of_node-Exits p (call_expr pos (selector name builtin)) m = elim m [ ]
of_node-Exits p (call_expr pos (selector name other_object)) m = elim m [ ]
of_node-Exits p (call_expr pos (selector name (func none f))) m = elim m [ ]
of_node-Exits p (call_expr pos other_callee) m = elim m [ ]
of_node-Exits p other_node m = elim m [ ]

Exits-of_node : (p : ℕ) (node : Node) → Exits node p → Memᴰ p (Osexit.of_node node)
unfolding Osexit.of_node Osexit.of_uses
Exits-of_node p _ (exits pos name) = Memᴰ.head refl

pub mem-exit_node : (p : ℕ) (node : Node) → Memᴰ p (Osexit.of_node node) ↔ Exits node p
mem-exit_node p node = (of_node-Exits p node, Exits-of_node p node)
