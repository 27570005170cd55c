-- ===== src/Database/Env/Keeping.antt =====
-- What a configuration keeps when mergePostgresConfigWithEnv adds the environment.
use devkit_go.Prelude.{◌≡◌, ◌⊎◌, inl, inr, subst, arith, true, false, ok, Bool-cases, Result-cases}
use devkit_go.Prelude.Int.{ℤ, pos, eqb_ℤ}
use devkit_go.Prelude.Text.{Text}
use devkit_go.Database.Dsn.{DriverConfig, is_blank}
use devkit_go.Database.Env.{merge_env_port, has_structured_fields, merged_with, merge_postgres}

module _ (env : Text → Text) where
  -- A field that is given stays, and then no connection string of the environment goes before it.
  abbrev pub IsKept : Text → Text → Text → Type 0
  IsKept explicit merged dsn =
      (is_blank explicit ≡ true) ⊎ ((merged ≡ explicit) × (is_blank dsn ≡ true))

  -- What is kept of each field.
  abbrev pub KeepsFields : DriverConfig → DriverConfig → Type 0
  KeepsFields c m =
      IsKept c.host m.host m.dsn
      × IsKept c.user m.user m.dsn
      × IsKept c.password m.password m.dsn
      × IsKept c.database m.database m.dsn
      × IsKept c.ssl_mode m.ssl_mode m.dsn
      × IsKept c.search_path m.search_path m.dsn
      × ((eqb_ℤ c.port (pos 0) ≡ true) ⊎ ((m.port ≡ c.port) × (is_blank m.dsn ≡ true)))

  merged_with-KeepsFields :
      (c : DriverConfig) (port : ℤ)
      → is_blank c.dsn ≡ true
      → (eqb_ℤ c.port (pos 0) ≡ true) ⊎ (port ≡ c.port)
      → KeepsFields c (merged_with env c port)
  unfolding has_structured_fields
  merged_with-KeepsFields c port blank same = (
    ground (arith, blank),
    ground (arith, blank),
    ground (arith, blank),
    ground (arith, blank),
    ground (arith, blank),
    ground (arith, blank),
    ground (arith, blank, same),
  )

  -- A configuration of Postgres that is merged with the environment is left as it is if it has a connection
  -- string; otherwise each of its fields stays where it is given, and when one is given the
  -- configuration gets no connection string of the environment that would go before it.
  pub merge_postgres-keeps :
      (c : DriverConfig) {m : DriverConfig}
      → merge_postgres env c ≡ ok m
      → ((is_blank c.dsn ≡ false) × (m ≡ c)) ⊎ ((is_blank c.dsn ≡ true) × KeepsFields c m)
  unfolding merge_postgres merge_env_port
  merge_postgres-keeps c {m} h = elim (Bool-cases (is_blank c.dsn)) [
    | inr given ↦ inl (given, ground arith)
    | inl blank ↦ elim (Result-cases (merge_env_port env c.port)) [
      | inl (port, found) ↦
          let same : merged_with env c port ≡ m = ground arith in
          let kept : (eqb_ℤ c.port (pos 0) ≡ true) ⊎ (port ≡ c.port) = ground arith in
          inr (blank, subst (λ k. KeepsFields c k) same (merged_with-KeepsFields c port blank kept))
      | inr (inl (e, failed)) ↦ absurd (ground arith)
      | inr (inr crashed) ↦ absurd (ground arith)
    ]
  ]
