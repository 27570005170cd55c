-- ===== src/Database/Dsn/Tests.antt =====
-- Connection strings and configurations from the environment.
use devkit_go.Prelude.{◌≡◌, ◌⊎◌, refl, true, false, some, [], ok, if◌then◌else◌}
use devkit_go.Prelude.Int.{pos}
use devkit_go.Prelude.Text.{Text, codes, text_eq}
use devkit_go.Database.Dsn.{DriverConfig, is_blank, resolve_dsn}
use devkit_go.Database.Dsn.Reader.{read_fields}
use devkit_go.Database.Dsn.Reading.{dsn_keys, dsn_values, resolve_dsn-read}
use devkit_go.Database.Env.{merge_postgres, merge_env_port, merged_with}
use devkit_go.Database.Env.Keeping.{KeepsFields, merge_postgres-keeps}

-- A password that would add a parameter if it were not quoted.
abbrev quoted_config : DriverConfig
quoted_config = record {
  dsn = [];
  host = codes "h";
  port = pos 1;
  user = codes "u";
  password = codes "p' sslmode=disable";
  database = [];
  ssl_mode = codes "require";
  search_path = [];
}

resolve_dsn-read_example :
    read_fields (dsn_keys quoted_config) (resolve_dsn (pos 5432) quoted_config)
    ≡ some (dsn_values (pos 5432) quoted_config)
resolve_dsn-read_example = resolve_dsn-read (pos 5432) quoted_config refl

abbrev one_dsn : Text → Text
one_dsn key = if text_eq key (codes "DB_DSN") then codes "postgres://x" else []

merged_ok : merge_postgres one_dsn quoted_config ≡ ok (merged_with one_dsn quoted_config (pos 1))
unfolding merge_postgres devkit_go.Database.Env.merge_env_port
merged_ok = refl

merge_postgres-keeps_example :
    ((is_blank quoted_config.dsn ≡ false)
      × (merged_with one_dsn quoted_config (pos 1) ≡ quoted_config))
    ⊎ ((is_blank quoted_config.dsn ≡ true)
        × KeepsFields one_dsn quoted_config (merged_with one_dsn quoted_config (pos 1)))
merge_postgres-keeps_example = merge_postgres-keeps one_dsn quoted_config merged_ok
