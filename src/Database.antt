-- ===== src/Database.antt =====
-- internal/database/migrate.go: the migrations at the start of the server. golang-migrate and the source of
-- the embedded files are parameters over the state `S` of the database.
pub mod Scheme
pub mod Applied
use Prim.Native.String.{◌++◌ as concat, len, slice}
use metrics_alerting_service.Prelude.{
  ℕ, String, Bool, true, false, ◌&&◌, Option, none, some, List, [], ◌∷◌, ◌==◌, ltb, if◌then◌else◌,
}
use metrics_alerting_service.Errors.{Error, Result, ok, err}

-- the loop over the prefixes
unfoldable pub replace_prefix : List String → String → String
replace_prefix [] dsn = dsn
replace_prefix (prefix ∷ rest) dsn =
    let next = replace_prefix rest dsn in
    if ltb (len prefix) (len dsn) && (slice dsn 0 (len prefix) == prefix)
    then concat "pgx5://" (slice dsn (len prefix) (len dsn))
    else next

-- `withPgx5Scheme`
unfoldable pub with_pgx5_scheme : String → String
with_pgx5_scheme dsn = replace_prefix ("postgres://" ∷ "postgresql://" ∷ []) dsn

-- `iofs.New`, `migrate.NewWithSourceInstance`, `Up`, the test for `ErrNoChange`, and `Close`, whose errors
-- are only logged
pub record Migrate (Source M S : Type 0) : Type 0 where
  pub new_source : Result Source
  pub new_migrate : Source → String → S → Result M × S
  pub up : M → S → Option Error × S
  pub is_no_change : Error → Bool
  pub close : M → S → S

module _ {Source M S : Type 0} (lib : Migrate Source M S) where
  unfoldable pub up_error : Option Error → Option Error
  up_error none = none
  up_error (some e) = if lib.is_no_change e then none else some e

  unfoldable pub migrated : M → Option Error × S → Option Error × S
  migrated m (e, s) = (up_error e, lib.close m s)

  unfoldable pub with_migrate : Result M × S → Option Error × S
  with_migrate (err e, s) = (some e, s)
  with_migrate (ok m, s) = migrated m (lib.up m s)

  unfoldable pub with_source : String → S → Result Source → Option Error × S
  with_source dsn s (err e) = (some e, s)
  with_source dsn s (ok source) = with_migrate (lib.new_migrate source (with_pgx5_scheme dsn) s)

  -- `RunMigrations`
  unfoldable pub run_migrations : String → S → Option Error × S
  run_migrations dsn s = with_source dsn s lib.new_source
