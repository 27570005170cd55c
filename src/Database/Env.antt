-- ===== src/Database/Env.antt =====
-- pkg/database/manager/env_config.go, and config.go of the packages mysql and mssql. `env` gives a variable
-- of the environment, empty if it is not set. Sizes and lifetimes of pools are left out, and so is the
-- connection string of mssql, which net/url makes.
pub mod Keeping
use devkit_go.Prelude.{
  ℕ, ◌+◌, ◌==◌, leb, ◌≡◌, ◌⊎◌, inl, inr, subst, arith, Bool, true, false, not, ◌&&◌, ◌||◌, Option,
  none, some, List, [], ◌++◌, if◌then◌else◌, map, Result, ok, err, panic, Bool-cases, Result-cases,
}
use devkit_go.Prelude.Int.{ℤ, pos, eqb_ℤ}
use devkit_go.Prelude.Text.{Text, codes, text_eq, trim_space}
use devkit_go.Prelude.Decimal.{parse_int, format_int}
use devkit_go.Database.Dsn.{
  DriverConfig, is_blank, FieldError, required, host_required, user_required, database_required,
}

pub record MysqlConfig : Type 0 where
  pub dsn : Text
  pub host : Text
  pub port : ℤ
  pub user : Text
  pub password : Text
  pub database : Text

pub record MssqlConfig : Type 0 where
  pub base : MysqlConfig
  pub default_schema : Text

-- A configuration of another type is left alone.
pub data AnyConfig : Type 0 where
  postgres cockroach : DriverConfig → AnyConfig
  mysql : MysqlConfig → AnyConfig
  mssql : MssqlConfig → AnyConfig
  another : AnyConfig

unfoldable pub validate_mysql : MysqlConfig → List FieldError
validate_mysql c =
    if is_blank c.dsn
    then required c.host host_required
        (required c.user user_required (required c.database database_required []))
    else []

abbrev pub mysql_port : MysqlConfig → ℤ
mysql_port c = if eqb_ℤ c.port (pos 0) then pos 3306 else c.port

-- Nothing is escaped.
unfoldable pub resolve_mysql_dsn : MysqlConfig → Text
resolve_mysql_dsn c =
    if is_blank c.dsn
    then c.user
      ++ (codes ":"
          ++ (c.password
              ++ (codes "@tcp("
                  ++ (c.host
                      ++ (codes ":"
                          ++ (format_int (mysql_port c)
                              ++ (codes ")/" ++ (c.database ++ codes "?parseTime=true"))))))))
    else c.dsn

-- Is the schema given, and blank? Is a field missing?
unfoldable pub blank_schema : MssqlConfig → Bool
blank_schema c = not (is_blank c.default_schema) && is_blank (trim_space c.default_schema)

unfoldable pub validate_mssql : MssqlConfig → Bool × List FieldError
validate_mssql c = (blank_schema c, validate_mysql c.base)

pub data EnvError : Type 0 where
  config_required unsupported_driver invalid_port : EnvError

-- strings.ToLower, as far as its result can be the name of a driver.
abbrev pub lower : ℕ → ℕ
lower c = if leb b'A' c && leb c b'Z' then c + 32 else if c == 8490 then b'k' else c

abbrev pub first_non_empty : Text → Text → Text
first_non_empty explicit fallback = if is_blank explicit then fallback else explicit

module _ (env : Text → Text) where
  unfoldable pub env_int : Text → Result EnvError ℤ
  env_int key =
      let raw = trim_space (env key) in
      if is_blank raw
      then ok (pos 0)
      else elim (parse_int raw) [ some n ↦ ok n | none ↦ err invalid_port ]

  abbrev pub env_database : Text
  env_database = first_non_empty (env (codes "DB_DATABASE")) (env (codes "DB_NAME"))

  unfoldable pub merge_env_port : ℤ → Result EnvError ℤ
  merge_env_port explicit =
      if eqb_ℤ explicit (pos 0) then env_int (codes "DB_PORT") else ok explicit

  unfoldable pub has_structured_fields : DriverConfig → Bool
  has_structured_fields c =
      not (is_blank c.host)
      || not (eqb_ℤ c.port (pos 0))
      || not (is_blank c.user)
      || not (is_blank c.password)
      || not (is_blank c.database)
      || not (is_blank c.ssl_mode)
      || not (is_blank c.search_path)

  abbrev pub merged_with : DriverConfig → ℤ → DriverConfig
  merged_with c port = record {
    dsn = if has_structured_fields c then c.dsn else env (codes "DB_DSN");
    host = first_non_empty c.host (env (codes "DB_HOST"));
    port = port;
    user = first_non_empty c.user (env (codes "DB_USER"));
    password = first_non_empty c.password (env (codes "DB_PASSWORD"));
    database = first_non_empty c.database env_database;
    ssl_mode = first_non_empty c.ssl_mode (env (codes "DB_SSLMODE"));
    search_path = first_non_empty c.search_path (env (codes "DB_SEARCH_PATH"));
  }

  unfoldable pub merge_postgres : DriverConfig → Result EnvError DriverConfig
  merge_postgres c = if not (is_blank c.dsn) then ok c else elim (merge_env_port c.port) [
    | ok port ↦ ok (merged_with c port)
    | err e ↦ err e
    | panic ↦ panic
  ]

  -- The code of mergeCockroachConfigWithEnv is that of Postgres.
  unfoldable pub merge_cockroach : DriverConfig → Result EnvError DriverConfig
  merge_cockroach c = merge_postgres c

  unfoldable pub has_mysql_fields : MysqlConfig → Bool
  has_mysql_fields c =
      not (is_blank c.host)
      || not (eqb_ℤ c.port (pos 0))
      || not (is_blank c.user)
      || not (is_blank c.password)
      || not (is_blank c.database)

  abbrev pub mysql_merged : Bool → MysqlConfig → ℤ → MysqlConfig
  mysql_merged structured c port = record {
    dsn = if structured then c.dsn else env (codes "DB_DSN");
    host = first_non_empty c.host (env (codes "DB_HOST"));
    port = port;
    user = first_non_empty c.user (env (codes "DB_USER"));
    password = first_non_empty c.password (env (codes "DB_PASSWORD"));
    database = first_non_empty c.database env_database;
  }

  unfoldable pub merge_mysql : MysqlConfig → Result EnvError MysqlConfig
  merge_mysql c = if not (is_blank c.dsn) then ok c else elim (merge_env_port c.port) [
    | ok port ↦ ok (mysql_merged (has_mysql_fields c) c port)
    | err e ↦ err e
    | panic ↦ panic
  ]

  unfoldable pub has_mssql_fields : MssqlConfig → Bool
  has_mssql_fields c = has_mysql_fields c.base || not (is_blank c.default_schema)

  unfoldable pub merge_mssql : MssqlConfig → Result EnvError MssqlConfig
  merge_mssql c = if not (is_blank c.base.dsn) then ok c else elim (merge_env_port c.base.port) [
    | ok port ↦ ok (record {
      base = mysql_merged (has_mssql_fields c) c.base port;
      default_schema = first_non_empty c.default_schema (env (codes "DB_DEFAULT_SCHEMA"));
    })
    | err e ↦ err e
    | panic ↦ panic
  ]

  abbrev pub wrap {ℓ} :
      {A : Type ℓ} → (A → AnyConfig) → Result EnvError A → Result EnvError AnyConfig
  wrap f (ok a) = ok (f a)
  wrap f (err e) = err e
  wrap f panic = panic

  unfoldable pub merge_config : AnyConfig → Result EnvError AnyConfig
  merge_config (postgres c) = wrap postgres (merge_postgres c)
  merge_config (cockroach c) = wrap cockroach (merge_cockroach c)
  merge_config (mysql c) = wrap mysql (merge_mysql c)
  merge_config (mssql c) = wrap mssql (merge_mssql c)
  merge_config another = ok another

  abbrev pub env_config : ℤ → DriverConfig
  env_config port = record {
    dsn = env (codes "DB_DSN");
    host = env (codes "DB_HOST");
    port = port;
    user = env (codes "DB_USER");
    password = env (codes "DB_PASSWORD");
    database = env_database;
    ssl_mode = env (codes "DB_SSLMODE");
    search_path = env (codes "DB_SEARCH_PATH");
  }

  abbrev pub env_mysql : ℤ → MysqlConfig
  env_mysql port = record {
    dsn = env (codes "DB_DSN");
    host = env (codes "DB_HOST");
    port = port;
    user = env (codes "DB_USER");
    password = env (codes "DB_PASSWORD");
    database = env_database;
  }

  abbrev pub config_for : Text → ℤ → Result EnvError AnyConfig
  config_for driver port =
      if text_eq driver (codes "postgres")
      then ok (postgres (env_config port))
      else if text_eq driver (codes "cockroach")
      then ok (cockroach (env_config port))
      else if text_eq driver (codes "mysql")
      then ok (mysql (env_mysql port))
      else if text_eq driver (codes "mssql")
      then ok (
          mssql
            (record { base = env_mysql port; default_schema = env (codes "DB_DEFAULT_SCHEMA") }))
      else err unsupported_driver

  unfoldable pub resolve_env_config : Result EnvError AnyConfig
  resolve_env_config =
      let driver = map lower (trim_space (env (codes "DB_DRIVER"))) in
      if is_blank driver then err config_required else elim (env_int (codes "DB_PORT")) [
        | ok port ↦ config_for driver port
        | err e ↦ err e
        | panic ↦ panic
      ]

  unfoldable pub resolve_config : Option AnyConfig → Result EnvError AnyConfig
  resolve_config (some c) = merge_config c
  resolve_config none = resolve_env_config
