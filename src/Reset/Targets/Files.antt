-- ===== src/Reset/Targets/Files.antt =====
-- Which files a run of the generator may change, and what it leaves in them.
use metrics_alerting_service.Prelude.{
  ℕ, zero, suc, String, Bool, true, false, Option, none, some, List, [], ◌∷◌, ◌≡◌, ◌≢◌, refl, ◌∙◌,
  All,
}
use metrics_alerting_service.Reset.Targets.{
  Tools, Package, PkgWork, Target, Verdict, generated_file, find_targets, find_work, with_work,
  after_write, write_package, formatted, rendered, render_package, write_packages, run,
}

module _ {FileSystem : Type 0} (tools : Tools FileSystem)
    (read : String → FileSystem → Option String) where
  -- `os.WriteFile` changes no other file.
  abbrev pub WritesOne : Type 0
  WritesOne =
      (p q src : String) (fs : FileSystem)
      → q ≢ p
      → read q ((tools.write_file p src fs).1) ≡ read q fs

  -- `sort.Slice` adds no element.
  abbrev pub SortAddsNone : Type 1
  SortAddsNone = (P : PkgWork → Type 0) (ws : List PkgWork) → All P ws → All P (tools.sort_work ws)

  -- `q` is not the file that is generated for `p`.
  abbrev pub IsNotGenerated : String → Package → Type 0
  IsNotGenerated q p =
      (f : String) (rest : List String)
      → p.go_files ≡ f ∷ rest
      → q ≢ tools.join_path (tools.dir f) generated_file

  module _ (writes : WritesOne) (q : String) where
    module _ (next : FileSystem → Verdict × FileSystem)
        (h : (fs : FileSystem) → read q ((next fs).1) ≡ read q fs) (p : Package)
        (n : IsNotGenerated q p) where
      after_write-unchanged :
          (fs : FileSystem) (r : Bool × FileSystem)
          → read q (r.1) ≡ read q fs
          → read q ((after_write tools next p r).1) ≡ read q fs
      unfolding after_write
      after_write-unchanged fs (true, after) e = h after ∙ e
      after_write-unchanged fs (false, after) e = e

      write_package-unchanged :
          (src : String) (fs : FileSystem) (files : List String)
          → p.go_files ≡ files
          → read q ((write_package tools next p src fs files).1) ≡ read q fs
      unfolding write_package
      write_package-unchanged src fs [] e = refl
      write_package-unchanged src fs (f ∷ rest) e =
          after_write-unchanged fs (tools.write_file out src fs) (writes out q src fs (n f rest e))
        where
          out : String
          out = tools.join_path (tools.dir f) generated_file

      formatted-unchanged :
          (fs : FileSystem) (o : Option String)
          → read q ((formatted tools next p fs o).1) ≡ read q fs
      unfolding formatted
      formatted-unchanged fs none = refl
      formatted-unchanged fs (some src) = write_package-unchanged src fs p.go_files refl

      rendered-unchanged :
          (fs : FileSystem) (o : Option String)
          → read q ((rendered tools next p fs o).1) ≡ read q fs
      unfolding rendered
      rendered-unchanged fs none = refl
      rendered-unchanged fs (some raw) = formatted-unchanged fs (tools.format_source raw)

    write_packages-unchanged :
        (fuel : ℕ) (will : String → Bool) (ws : List PkgWork)
        → All (λ w. IsNotGenerated q w.pkg) ws
        → (fs : FileSystem) → read q ((write_packages tools fuel will ws fs).1) ≡ read q fs
    unfolding write_packages
    write_packages-unchanged fuel will [] a fs = refl
    write_packages-unchanged fuel will (w ∷ ws) (n, a) fs =
        rendered-unchanged (write_packages tools fuel will ws)
          (write_packages-unchanged fuel will ws a) w.pkg n fs
          (render_package tools fuel will w.pkg.name w.targets)

    with_work-All :
        (p : Package) (ts : List Target) (ws : List PkgWork)
        → (ts ≢ [] → IsNotGenerated q p)
        → All (λ w. IsNotGenerated q w.pkg) ws
        → All (λ w. IsNotGenerated q w.pkg) (with_work tools p ts ws)
    unfolding with_work
    with_work-All p [] ws n a = a
    with_work-All p (t ∷ ts) ws n a = (n (λ e. cc), a)

    find_work-All :
        (ps : List Package)
        → All (λ p. find_targets tools p ≢ [] → IsNotGenerated q p) ps
        → All (λ w. IsNotGenerated q w.pkg) (find_work tools ps)
    unfolding find_work
    find_work-All [] a = tt
    find_work-All (p ∷ ps) (n, a) =
        with_work-All p (find_targets tools p) (find_work tools ps) n (find_work-All ps a)

    -- However a run ends, a file that is not the generated file of a package with a marked struct is as
    -- it was, if writing a file changes no other file and sorting adds no element.
    run-unchanged :
        SortAddsNone
        → (ps : List Package) → All (λ p. find_targets tools p ≢ [] → IsNotGenerated q p) ps
        → (fuel errors : ℕ) (fs : FileSystem)
        → read q ((run tools fuel (some ps) errors fs).1) ≡ read q fs
    unfolding run
    run-unchanged sorts ps a fuel (suc errors) fs = refl
    run-unchanged sorts ps a fuel zero fs =
        write_packages-unchanged fuel _ (tools.sort_work (find_work tools ps))
          (sorts (λ w. IsNotGenerated q w.pkg) (find_work tools ps) (find_work-All ps a)) fs
