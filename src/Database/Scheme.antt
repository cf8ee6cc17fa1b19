-- ===== src/Database/Scheme.antt =====
-- What becomes of a connection string.
use Prim.Native.String.{◌++◌ as concat, len, slice}
use text.Mathlib.TextPositions.{len-append, slice-append_left, slice-append_right, eq_refl}
use text.Mathlib.TextLemmas.{append_assoc}
use metrics_alerting_service.Prelude.{
  String, ◌<◌, ◌≡◌, refl, ap, ◌∙◌, Bool, true, false, ◌&&◌, List, [], ◌∷◌, ◌==◌, ltb, if◌then◌else◌,
  lt→ltb, arith,
}
use metrics_alerting_service.Database.{replace_prefix, with_pgx5_scheme}

replaced :
    (prefix rest : String) (ps : List String)
    → 0 < len rest
    → replace_prefix (prefix ∷ ps) (concat prefix rest) ≡ concat "pgx5://" rest
unfolding replace_prefix
replaced prefix rest ps h = rw (
  lt→ltb (len prefix) (len (concat prefix rest)) (omega (arith, len-append prefix rest, h)),
  slice-append_left prefix rest,
  eq_refl prefix,
  len-append prefix rest,
  slice-append_right prefix rest,
)

skipped :
    (prefix dsn : String) (ps : List String)
    → (slice dsn 0 (len prefix) == prefix) ≡ false
    → replace_prefix (prefix ∷ ps) dsn ≡ replace_prefix ps dsn
unfolding replace_prefix
skipped prefix dsn ps h =
    by_test (ltb (len prefix) (len dsn)) (slice dsn 0 (len prefix) == prefix) _ _ h
  where
    by_test : (b c : Bool) (x y : String) → c ≡ false → (if b && c then x else y) ≡ y
    by_test true c x y e = rw e
    by_test false c x y e = refl

-- the first eleven bytes of the longer scheme are not the shorter one
no_prefix : (rest : String) → (slice (concat "postgresql://" rest) 0 11 == "postgres://") ≡ false
no_prefix rest =
    ap (λ (s : String). slice s 0 11 == "postgres://") (append_assoc "postgresql:" "//" rest)
    ∙ ap (λ (s : String). s == "postgres://") (slice-append_left "postgresql:" (concat "//" rest))
    ∙ refl

-- Both schemes of PostgreSQL are replaced by that of the driver, and what follows them is kept; it is not
-- empty.
with_pgx5_scheme_lem :
    (rest : String)
    → 0 < len rest
    → (with_pgx5_scheme (concat "postgres://" rest) ≡ concat "pgx5://" rest)
      × (with_pgx5_scheme (concat "postgresql://" rest) ≡ concat "pgx5://" rest)
unfolding with_pgx5_scheme
with_pgx5_scheme_lem rest h = (
  replaced "postgres://" rest ("postgresql://" ∷ []) h,
  skipped "postgres://" (concat "postgresql://" rest) ("postgresql://" ∷ []) (no_prefix rest)
      ∙ replaced "postgresql://" rest [] h,
)
