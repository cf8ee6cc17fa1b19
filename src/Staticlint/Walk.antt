-- ===== src/Staticlint/Walk.antt =====
-- The calls of a package, and how the walk of the analysers finds them.
use mathlib.Core.List.{Memᴰ}
use metrics_alerting_service.Prelude.{
  ℕ, Bool, true, false, ◌&&◌, Option, some, List, ◌==◌, ◌≡◌, ◌⊎◌, inl, inr, ◌↔◌, refl, arith,
  eq_iff, if◌then◌else◌,
}
use metrics_alerting_service.Staticlint.{
  Node, FuncDecl, File, Pass, Tools, is_skipped, check_file, concat_map,
}
use metrics_alerting_service.Staticlint.Collect.{mem-unless, mem-concat_map}
use metrics_alerting_service.Staticlint.Nofatal

module _ {Body : Type 0} (tools : Tools Body) where
  -- The body has a call of the kind `Call` at this position.
  pub data IsCallOf (Call : Node → ℕ → Type 0) : Option Body → ℕ → Type 0 where
    called :
        (body : Body) (node : Node) (pos : ℕ)
        → Memᴰ node (tools.inspect body)
        → Call node pos
        → IsCallOf Call (some body) pos

  -- A file that is neither generated nor a test has a function, among those that `In` names, with
  -- such a call.
  pub data IsCallIn (In : FuncDecl Body → Type 0) (Call : Node → ℕ → Type 0)
      : Pass Body → ℕ → Type 0 where
    found :
        (pass : Pass Body) (file : File Body) (fn : FuncDecl Body) (pos : ℕ)
        → Memᴰ file pass.files
        → is_skipped tools file ≡ false
        → Memᴰ (some fn) file.decls
        → In fn
        → IsCallOf Call fn.body pos
        → IsCallIn In Call pass pos

  -- `main` of a package main, or any `init`, but no method.
  abbrev pub IsEntrypoint : Pass Body → FuncDecl Body → Type 0
  IsEntrypoint pass fn =
      (fn.has_recv ≡ false) × ((fn.name ≡ "init") ⊎ ((pass.pkg_name ≡ "main") × (fn.name ≡ "main")))

  pub is_entrypoint-IsEntrypoint :
      (pass : Pass Body) (fn : FuncDecl Body)
      → (Nofatal.is_entrypoint tools fn (pass.pkg_name == "main") ≡ true) ↔ IsEntrypoint pass fn
  unfolding Nofatal.is_entrypoint
  is_entrypoint-IsEntrypoint pass fn =
      entry fn.has_recv (fn.name == "init") (pass.pkg_name == "main") (fn.name == "main")
        (eq_iff fn.name "init") (eq_iff pass.pkg_name "main") (eq_iff fn.name "main")
    where
      entry :
          {P Q R : Type 0} (r i p m : Bool)
          → ((i ≡ true) ↔ P)
          → ((p ≡ true) ↔ Q)
          → ((m ≡ true) ↔ R)
          → ((if r then false else if i then true else p && m) ≡ true)
            ↔ ((r ≡ false) × (P ⊎ (Q × R)))
      entry true i p m hi hp hm = (λ h. cc, λ h. cc)
      entry false true p m hi hp hm = (λ h. (refl, inl (hi.0 refl)), λ h. refl)
      entry false false true true hi hp hm = (λ h. (refl, inr (hp.0 refl, hm.0 refl)), λ h. refl)
      entry false false true false hi hp hm = (λ h. cc, λ h. ground (arith, hi, hp, hm))
      entry false false false m hi hp hm = (λ h. cc, λ h. ground (arith, hi, hp, hm))

  -- A walk whose check of a declaration reports the calls of a kind in the functions that `In` names.
  module _ (In : FuncDecl Body → Type 0) (Call : Node → ℕ → Type 0)
      (check : Option (FuncDecl Body) → List ℕ) where
    pub data IsCallInDecl : Option (FuncDecl Body) → ℕ → Type 0 where
      in_decl :
          (fn : FuncDecl Body) (pos : ℕ)
          → In fn
          → IsCallOf Call fn.body pos
          → IsCallInDecl (some fn) pos

    module _
        (mem-check : (p : ℕ) (d : Option (FuncDecl Body))
          → Memᴰ p (check d) ↔ IsCallInDecl d p) where
      pub from-walk :
          (pass : Pass Body) (p : ℕ)
          → Memᴰ p (concat_map (check_file tools check) pass.files)
          → IsCallIn In Call pass p
      unfolding check_file
      from-walk pass p m =
          let (file, i, q) = (mem-concat_map (check_file tools check) p pass.files).0 m in
          let (skipped, r) =
            (mem-unless (is_skipped tools file) p (concat_map check file.decls)).0 q in
          let (d, j, s) = (mem-concat_map check p file.decls).0 r in
          of_decl file i skipped d j ((mem-check p d).0 s)
        where
          of_decl :
              (file : File Body)
              → Memᴰ file pass.files
              → is_skipped tools file ≡ false
              → (d : Option (FuncDecl Body)) → Memᴰ d file.decls
              → IsCallInDecl d p
              → IsCallIn In Call pass p
          of_decl file i n _ j (in_decl fn pos t c) = found pass file fn pos i n j t c

      pub to-walk :
          (pass : Pass Body) (p : ℕ)
          → IsCallIn In Call pass p
          → Memᴰ p (concat_map (check_file tools check) pass.files)
      unfolding check_file
      to-walk _ _ (found pass file fn pos i n j t c) =
          (mem-concat_map (check_file tools check) pos pass.files).1 (
            file,
            i,
            (mem-unless (is_skipped tools file) pos (concat_map check file.decls)).1 (
              n,
              (mem-concat_map check pos file.decls).1
                  (some fn, j, (mem-check pos (some fn)).1 (in_decl fn pos t c)),
            ),
          )
