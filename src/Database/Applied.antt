-- ===== src/Database/Applied.antt =====
-- When the start of the server may go on.
use metrics_alerting_service.Prelude.{
  String, ◌≡◌, refl, sym, ap, Bool, true, false, Option, none, some, ◌⊎◌, inl, inr, if◌then◌else◌,
}
use metrics_alerting_service.Errors.{Error, Result, ok, err}
use metrics_alerting_service.Database.{
  Migrate, with_pgx5_scheme, up_error, migrated, with_migrate, with_source, run_migrations,
}

module _ {Source M S : Type 0} (lib : Migrate Source M S) where
  -- `Up` has applied the migrations, or there was nothing to apply.
  abbrev pub IsUpToDate : Option Error → Type 0
  IsUpToDate o = (o ≡ none) ⊎ ((e : Error) × (o ≡ some e) × (lib.is_no_change e ≡ true))

  up_error-none : (o : Option Error) → up_error lib o ≡ none → IsUpToDate o
  unfolding up_error
  up_error-none none h = inl refl
  up_error-none (some e) h = by_test (lib.is_no_change e) refl h
    where
      by_test :
          (b : Bool)
          → lib.is_no_change e ≡ b
          → (if b then none else some e) ≡ none
          → IsUpToDate (some e)
      by_test true t x = inr (e, refl, t)
      by_test false t x = cc

  with_migrate-none :
      (r : Result M × S) {s' : S}
      → with_migrate lib r ≡ (none, s')
      → (m : M) × (s1 : S) × (r ≡ (ok m, s1)) × (migrated lib m (lib.up m s1) ≡ (none, s'))
  unfolding with_migrate
  with_migrate-none (err e, s) h = cc
  with_migrate-none (ok m, s) h = (m, s, refl, h)

  with_source-none :
      (dsn : String) (s : S) (r : Result Source) {s' : S}
      → with_source lib dsn s r ≡ (none, s')
      → (source : Source) × (with_migrate lib (lib.new_migrate source (with_pgx5_scheme dsn) s)
          ≡ (none, s'))
  unfolding with_source
  with_source-none dsn s (err e) h = cc
  with_source-none dsn s (ok source) h = (source, h)

  -- If `RunMigrations` returns nil, then the migrations of some source were applied to the database that
  -- the connection string names under the scheme of the driver, or there was nothing to apply, and the
  -- connection of the migrations was closed.
  run_migrations-none :
      (dsn : String) (s s' : S)
      → run_migrations lib dsn s ≡ (none, s')
      → (source : Source) × (m : M) × (s1 : S) × (lib.new_migrate source (with_pgx5_scheme dsn) s
          ≡ (ok m, s1))
        × (IsUpToDate (lib.up m s1).0)
        × (s' ≡ lib.close m (lib.up m s1).1)
  unfolding run_migrations migrated
  run_migrations-none dsn s s' h =
      let (source, h1) = with_source-none dsn s lib.new_source h in
      let (m, s1, e, h2) = with_migrate-none (lib.new_migrate source (with_pgx5_scheme dsn) s) h1 in
      (
        source,
        m,
        s1,
        e,
        up_error-none (lib.up m s1).0 (ap (λ (x : Option Error × S). x.0) h2),
        sym (ap (λ (x : Option Error × S). x.1) h2),
      )
