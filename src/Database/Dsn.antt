-- ===== src/Database/Dsn.antt =====
-- pkg/database/postgres/config.go and cockroach/config.go, which are the same but for the default port and
-- the texts of errors. The sizes and lifetimes of the pool are left out. An error says which field it is about.
mod Tests
pub mod Reader
pub mod Reading
use devkit_go.Prelude.{
  ℕ, ◌==◌, Bool, true, false, not, ◌&&◌, ◌||◌, List, [], ◌∷◌, ◌++◌, if◌then◌else◌,
}
use devkit_go.Prelude.Int.{ℤ, pos, eqb_ℤ}
use devkit_go.Prelude.Text.{Text, codes}
use devkit_go.Prelude.Decimal.{format_int}

pub record DriverConfig : Type 0 where
  pub dsn : Text
  pub host : Text
  pub port : ℤ
  pub user : Text
  pub password : Text
  pub database : Text
  pub ssl_mode : Text
  pub search_path : Text

pub data FieldError : Type 0 where
  host_required user_required database_required : FieldError

abbrev pub is_blank : Text → Bool
is_blank [] = true
is_blank (c ∷ s) = false

abbrev pub required : Text → FieldError → List FieldError → List FieldError
required value e errs = if is_blank value then e ∷ errs else errs

-- The errors that are joined; none for a valid configuration.
unfoldable pub validate : DriverConfig → List FieldError
validate c =
    if is_blank c.dsn
    then required c.host host_required
        (required c.user user_required (required c.database database_required []))
    else []

-- White space, the quote and the backslash.
abbrev pub is_white : ℕ → Bool
is_white c = c == 32 || c == 9 || c == 10 || c == 13 || c == 11 || c == 12

abbrev pub is_special : ℕ → Bool
is_special c = is_white c || c == 39 || c == 92

unfoldable pub any_special : Text → Bool
any_special [] = false
any_special (c ∷ v) = is_special c || any_special v

unfoldable pub escape : Text → Text
escape [] = []
escape (c ∷ v) = let rest = escape v in if c == 92 || c == 39 then 92 ∷ (c ∷ rest) else c ∷ rest

unfoldable pub quote_libpq_value : Text → Text
quote_libpq_value v =
    if not (is_blank v) && not (any_special v) then v else 39 ∷ (escape v ++ (39 ∷ []))

abbrev pub or_default : Text → Text → Text
or_default s fallback = if is_blank s then fallback else s

-- The values in front of which stands a key.
unfoldable pub print_fields : List (Text × Text) → Text
print_fields [] = []
print_fields ((key, printed) ∷ fields) = key ++ (printed ++ print_fields fields)

-- `default_port` is 5432, or 26257 for Cockroach.
module _ (default_port : ℤ) where
  abbrev pub port_of : DriverConfig → ℤ
  port_of c = if eqb_ℤ c.port (pos 0) then default_port else c.port

  abbrev pub path_field : DriverConfig → List (Text × Text)
  path_field c =
      if is_blank c.search_path
      then []
      else (codes " search_path=", quote_libpq_value c.search_path) ∷ []

  abbrev pub fields_of : DriverConfig → List (Text × Text)
  fields_of c =
      (codes "host=", quote_libpq_value c.host)
      ∷ (codes " port=", format_int (port_of c))
      ∷ (codes " user=", quote_libpq_value c.user)
      ∷ (codes " password=", quote_libpq_value c.password)
      ∷ (codes " dbname=", quote_libpq_value c.database)
      ∷ (codes " sslmode=", quote_libpq_value (or_default c.ssl_mode (codes "disable")))
      ∷ path_field c

  unfoldable pub resolve_dsn : DriverConfig → Text
  resolve_dsn c = if is_blank c.dsn then print_fields (fields_of c) else c.dsn
