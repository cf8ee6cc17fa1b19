-- ===== src/Staticlint/Reports.antt =====
-- What the two analysers report.
use mathlib.Core.List.{Memᴰ}
use metrics_alerting_service.Prelude.{
  ℕ, Bool, true, false, ◌||◌, not, Option, none, some, List, ◌==◌, ◌≡◌, ◌↔◌, refl, sym, ◌∙◌, arith,
  eq_iff,
}
use mathlib.Core.Bool.{true≢false}
use metrics_alerting_service.Staticlint.{Node, FuncDecl, Pass, Tools, check_file, concat_map}
use metrics_alerting_service.Staticlint.Collect.{mem-unless, mem-concat_map}
use metrics_alerting_service.Staticlint.Calls.{Terminates, Exits, mem-of_node, mem-exit_node}
use metrics_alerting_service.Staticlint.Walk.{
  IsCallOf, called, IsCallIn, IsEntrypoint, is_entrypoint-IsEntrypoint, IsCallInDecl, in_decl,
  from-walk, to-walk,
}
use metrics_alerting_service.Staticlint.Nofatal
use metrics_alerting_service.Staticlint.Osexit

false-not : (b : Bool) (P : Type 0) → ((b ≡ true) ↔ P) → b ≡ false → ¬ P
false-not b P h e x = true≢false (sym (h.1 x) ∙ e)

not-false : (b : Bool) (P : Type 0) → ((b ≡ true) ↔ P) → (¬ P) → b ≡ false
not-false true P h n = absurd (n (h.0 refl))
not-false false P h n = refl

or-split : (a b : Bool) → (a || b) ≡ false → (a ≡ false) × (b ≡ false)
or-split true b h = cc
or-split false b h = (refl, h)

not-true : (b : Bool) → not b ≡ false → b ≡ true
not-true true h = refl
not-true false h = cc

module _ {Body : Type 0} (tools : Tools Body) where
  from-body :
      (of_node : Node → List ℕ) (Call : Node → ℕ → Type 0)
      → ((p : ℕ) (node : Node) → Memᴰ p (of_node node) ↔ Call node p)
      → (body : Body) (p : ℕ) → Memᴰ p (concat_map of_node (tools.inspect body))
      → IsCallOf tools Call (some body) p
  from-body of_node Call h body p m =
      let (node, i, c) = (mem-concat_map of_node p (tools.inspect body)).0 m in
      called body node p i ((h p node).0 c)

  to-body :
      (of_node : Node → List ℕ) (Call : Node → ℕ → Type 0)
      → ((p : ℕ) (node : Node) → Memᴰ p (of_node node) ↔ Call node p)
      → (body : Body) (p : ℕ) → IsCallOf tools Call (some body) p
      → Memᴰ p (concat_map of_node (tools.inspect body))
  to-body of_node Call h _ _ (called body node p i c) =
      (mem-concat_map of_node p (tools.inspect body)).1 (node, i, (h p node).1 c)

  fatal-body :
      (p : ℕ) (o : Option Body)
      → Memᴰ p (Nofatal.check_body tools o) ↔ IsCallOf tools Terminates o p
  unfolding Nofatal.check_body
  fatal-body p none = (λ m. elim m [ ], λ c. elim c [ ])
  fatal-body p (some body) = (
    from-body Nofatal.of_node Terminates mem-of_node body p,
    to-body Nofatal.of_node Terminates mem-of_node body p,
  )

  exit-body :
      (p : ℕ) (o : Option Body) → Memᴰ p (Osexit.check_body tools o) ↔ IsCallOf tools Exits o p
  unfolding Osexit.check_body
  exit-body p none = (λ m. elim m [ ], λ c. elim c [ ])
  exit-body p (some body) = (
    from-body Osexit.of_node Exits mem-exit_node body p,
    to-body Osexit.of_node Exits mem-exit_node body p,
  )

  module _ (pass : Pass Body) where
    abbrev IsChecked : FuncDecl Body → Type 0
    IsChecked fn = ¬ IsEntrypoint tools pass fn

    fatal-decl :
        (p : ℕ) (d : Option (FuncDecl Body))
        → Memᴰ p (Nofatal.check_decl tools (pass.pkg_name == "main") d)
          ↔ IsCallInDecl tools IsChecked Terminates
              (Nofatal.check_decl tools (pass.pkg_name == "main"))
              d
              p
    unfolding Nofatal.check_decl
    fatal-decl p none = (λ m. elim m [ ], λ c. elim c [ ])
    fatal-decl p (some fn) = (
      λ m.
          let (e, q) = (mem-unless (Nofatal.is_entrypoint tools fn main) p reports).0 m in
          in_decl fn p (false-not _ _ (is_entrypoint-IsEntrypoint tools pass fn) e)
            ((fatal-body p fn.body).0 q),
      back,
    )
      where
        main : Bool
        main = pass.pkg_name == "main"

        reports : List ℕ
        reports = Nofatal.check_body tools fn.body

        back :
            IsCallInDecl tools IsChecked Terminates (Nofatal.check_decl tools main) (some fn) p
            → Memᴰ p (Nofatal.check_decl tools main (some fn))
        back (in_decl _ _ n c) =
            (mem-unless (Nofatal.is_entrypoint tools fn main) p reports).1 (
              not-false _ _ (is_entrypoint-IsEntrypoint tools pass fn) n,
              (fatal-body p fn.body).1 c,
            )

    -- nofatal reports a position exactly if a call of the built-in `panic` by its name, or by a selector a
    -- call of one of the functions of log that end the process, stands there in a function of a file that is neither generated nor a test, other than
    -- `main` of a package main and the functions `init`.
    pub nofatal-Iff :
        (p : ℕ)
        → Memᴰ p (Nofatal.run tools pass)
          ↔ IsCallIn tools (λ fn. ¬ IsEntrypoint tools pass fn) Terminates pass p
    unfolding Nofatal.run
    nofatal-Iff p = (
      from-walk tools IsChecked Terminates (Nofatal.check_decl tools (pass.pkg_name == "main"))
          fatal-decl pass p,
      to-walk tools IsChecked Terminates (Nofatal.check_decl tools (pass.pkg_name == "main"))
          fatal-decl pass p,
    )

  -- a function main without a receiver
  abbrev pub IsMain : FuncDecl Body → Type 0
  IsMain fn = (fn.has_recv ≡ false) × (fn.name ≡ "main")

  exit-decl :
      (p : ℕ) (d : Option (FuncDecl Body))
      → Memᴰ p (Osexit.check_decl tools d)
        ↔ IsCallInDecl tools IsMain Exits (Osexit.check_decl tools) d p
  unfolding Osexit.check_decl
  exit-decl p none = (λ m. elim m [ ], λ c. elim c [ ])
  exit-decl p (some fn) = (
    λ m.
        let (e, q) = (mem-unless other p reports).0 m in
        let (r, n) = or-split fn.has_recv (not (fn.name == "main")) e in
        in_decl fn p (r, (eq_iff fn.name "main").0 (not-true (fn.name == "main") n))
          ((exit-body p fn.body).0 q),
    back,
  )
    where
      other : Bool
      other = fn.has_recv || not (fn.name == "main")

      reports : List ℕ
      reports = Osexit.check_body tools fn.body

      back :
          IsCallInDecl tools IsMain Exits (Osexit.check_decl tools) (some fn) p
          → Memᴰ p (Osexit.check_decl tools (some fn))
      back (in_decl _ _ (r, n) c) =
          (mem-unless other p reports).1
            (ground (arith, r, (eq_iff fn.name "main").1 n), (exit-body p fn.body).1 c)

  -- osexit reports a position exactly if the package is main and a call of os.Exit by a selector stands
  -- there in its function `main`, in a file that is neither generated nor a test.
  pub osexit-Iff :
      (pass : Pass Body) (p : ℕ)
      → Memᴰ p (Osexit.run tools pass)
        ↔ ((pass.pkg_name ≡ "main") × IsCallIn tools IsMain Exits pass p)
  unfolding Osexit.run
  osexit-Iff pass p = (
    λ m.
        let (e, q) = (mem-unless (not (pass.pkg_name == "main")) p reports).0 m in
        (
          (eq_iff pass.pkg_name "main").0 (not-true (pass.pkg_name == "main") e),
          from-walk tools IsMain Exits (Osexit.check_decl tools) exit-decl pass p q,
        ),
    λ h. (mem-unless (not (pass.pkg_name == "main")) p reports).1 (
      ground (arith, (eq_iff pass.pkg_name "main").1 h.0),
      to-walk tools IsMain Exits (Osexit.check_decl tools) exit-decl pass p h.1,
    ),
  )
    where
      reports : List ℕ
      reports = concat_map (check_file tools (Osexit.check_decl tools)) pass.files
