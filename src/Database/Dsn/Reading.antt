-- ===== src/Database/Dsn/Reading.antt =====
-- The reader of Dsn/Reader gets the values of a connection string back.
use devkit_go.Database.Dsn.Reader.{read_quoted, read_plain, read_value, strip, read_fields}
use devkit_go.Prelude.{
  suc, ◌≡◌, ◌⊎◌, ◌≢◌, inl, inr, refl, sym, ap, subst, ◌∙◌, arith, true, false, some, List, [], ◌∷◌,
  ◌++◌, if◌then◌else◌, append_assoc, map, All, Bool-cases,
}
use devkit_go.Prelude.Int.{ℤ, pos, negsuc}
use devkit_go.Prelude.Text.{Text, codes}
use devkit_go.Prelude.Decimal.{format_int, format_nat}
use devkit_go.Prelude.Decimal.RoundTrip.{format_nat-IsDigit, format_nat-ne-nil, IsDigit}
use devkit_go.Database.Dsn.{
  DriverConfig, is_blank, any_special, escape, quote_libpq_value, print_fields, resolve_dsn,
  fields_of, port_of, or_default,
}

strip_lem : (key s : Text) → strip key (key ++ s) ≡ some s
unfolding strip
strip_lem [] s = refl
strip_lem (k ∷ key) s = ground (arith, strip_lem key s)

-- What may follow a value.
abbrev EndsValue : Text → Type 0
EndsValue rest = (rest ≡ []) ⊎ ((more : Text) × (rest ≡ 32 ∷ more))

read_quoted-escape : (v rest : Text) → read_quoted false (escape v ++ (39 ∷ rest)) ≡ some (v, rest)
unfolding read_quoted escape
read_quoted-escape [] rest = refl
read_quoted-escape (c ∷ v) rest = ground (arith, read_quoted-escape v rest)

read_plain_end : (rest : Text) → EndsValue rest → read_plain false rest ≡ some ([], rest)
unfolding read_plain
read_plain_end rest (inl e) = subst (λ r. read_plain false r ≡ some ([], r)) (sym e) refl
read_plain_end rest (inr (more, e)) = subst (λ r. read_plain false r ≡ some ([], r)) (sym e) refl

read_plain-plain :
    (v rest : Text)
    → any_special v ≡ false
    → EndsValue rest
    → read_plain false (v ++ rest) ≡ some (v, rest)
unfolding read_plain any_special
read_plain-plain [] rest h e = read_plain_end rest e
read_plain-plain (c ∷ v) rest h e = ground (arith, h, read_plain-plain v rest (ground arith) e)

-- The reader takes the value and leaves the rest.
abbrev IsReadAs : Text → Text → Type 0
IsReadAs printed value =
    (rest : Text) → EndsValue rest → read_value (printed ++ rest) ≡ some (value, rest)

plain-IsReadAs : (v : Text) → is_blank v ≡ false → any_special v ≡ false → IsReadAs v v
unfolding read_value any_special
plain-IsReadAs [] b h rest e = absurd (ground arith)
plain-IsReadAs (c ∷ v) b h rest e = ground (arith, h, read_plain-plain (c ∷ v) rest h e)

quoted-IsReadAs : (v : Text) → IsReadAs (39 ∷ (escape v ++ (39 ∷ []))) v
unfolding read_value
quoted-IsReadAs v rest e =
    ap (read_quoted false) (append_assoc (escape v) (39 ∷ []) rest) ∙ read_quoted-escape v rest

quote_libpq_value-IsReadAs : (v : Text) → IsReadAs (quote_libpq_value v) v
unfolding quote_libpq_value
quote_libpq_value-IsReadAs v = elim (Bool-cases (is_blank v)) [
  | inl blank ↦ rw blank (quoted-IsReadAs v)
  | inr given ↦ elim (Bool-cases (any_special v)) [
    | inl special ↦ rw (given, special) (quoted-IsReadAs v)
    | inr ordinary ↦ rw (given, ordinary) (plain-IsReadAs v given ordinary)
  ]
]

digits_ordinary : (s : Text) → All IsDigit s → any_special s ≡ false
unfolding any_special
digits_ordinary [] h = refl
digits_ordinary (c ∷ s) (digit, h) = ground (arith, digit, digits_ordinary s h)

not_blank : (s : Text) → s ≢ [] → is_blank s ≡ false
not_blank [] h = absurd (h refl)
not_blank (c ∷ s) h = refl

format_int-IsReadAs : (n : ℤ) → IsReadAs (format_int n) (format_int n)
unfolding format_int any_special
format_int-IsReadAs (pos n) =
    plain-IsReadAs (format_nat n) (not_blank (format_nat n) (format_nat-ne-nil n))
      (digits_ordinary (format_nat n) (format_nat-IsDigit n))
format_int-IsReadAs (negsuc n) =
    plain-IsReadAs (b'-' ∷ format_nat (suc n)) refl
      (digits_ordinary (format_nat (suc n)) (format_nat-IsDigit (suc n)))

-- A key, what is printed behind it, and the value that it stands for.
record Field : Type 0 where
  key : Text
  printed : Text
  value : Text

abbrev key_of : Field → Text
key_of f = f.key

abbrev value_of : Field → Text
value_of f = f.value

abbrev pair_of : Field → Text × Text
pair_of f = (f.key, f.printed)

abbrev IsSpaced : Field → Type 0
IsSpaced f = ((key : Text) × (f.key ≡ 32 ∷ key)) × IsReadAs f.printed f.value

print_fields-EndsValue :
    (fs : List Field) → All IsSpaced fs → EndsValue (print_fields (map pair_of fs))
unfolding print_fields
print_fields-EndsValue [] h = inl refl
print_fields-EndsValue (f ∷ fs) (((key, e), r), h) =
    inr (_, ap (λ k. k ++ (f.printed ++ print_fields (map pair_of fs))) e)

read_fields-cons :
    (f : Field) (fs : List Field)
    → IsReadAs f.printed f.value
    → All IsSpaced fs
    → read_fields (map key_of fs) (print_fields (map pair_of fs)) ≡ some (map value_of fs)
    → read_fields (f.key ∷ map key_of fs) (print_fields (pair_of f ∷ map pair_of fs))
      ≡ some (f.value ∷ map value_of fs)
unfolding read_fields print_fields
read_fields-cons f fs reads spaced rest = ground (
  arith,
  strip_lem f.key (f.printed ++ print_fields (map pair_of fs)),
  reads (print_fields (map pair_of fs)) (print_fields-EndsValue fs spaced),
  rest,
)

read_fields-print :
    (fs : List Field)
    → All IsSpaced fs
    → read_fields (map key_of fs) (print_fields (map pair_of fs)) ≡ some (map value_of fs)
unfolding read_fields print_fields
read_fields-print [] h = refl
read_fields-print (f ∷ fs) ((spaced, reads), h) =
    read_fields-cons f fs reads h (read_fields-print fs h)

abbrev quoted_field : Text → Text → Field
quoted_field key v = record { key = key; printed = quote_libpq_value v; value = v }

abbrev path_fields : Text → List Field
path_fields path = if is_blank path then [] else quoted_field (codes " search_path=") path ∷ []

abbrev later_fields : ℤ → DriverConfig → List Field
later_fields default_port c =
    record {
      key = codes " port=";
      printed = format_int (port_of default_port c);
      value = format_int (port_of default_port c);
    }
    ∷ quoted_field (codes " user=") c.user
    ∷ quoted_field (codes " password=") c.password
    ∷ quoted_field (codes " dbname=") c.database
    ∷ quoted_field (codes " sslmode=") (or_default c.ssl_mode (codes "disable"))
    ∷ path_fields c.search_path

path_fields-IsSpaced : (path : Text) → All IsSpaced (path_fields path)
path_fields-IsSpaced [] = tt
path_fields-IsSpaced (c ∷ path) = (((_, refl), quote_libpq_value-IsReadAs (c ∷ path)), tt)

later_fields-IsSpaced :
    (default_port : ℤ) (c : DriverConfig) → All IsSpaced (later_fields default_port c)
later_fields-IsSpaced default_port c = (
  ((_, refl), format_int-IsReadAs (port_of default_port c)),
  (
    ((_, refl), quote_libpq_value-IsReadAs c.user),
    (
      ((_, refl), quote_libpq_value-IsReadAs c.password),
      (
        ((_, refl), quote_libpq_value-IsReadAs c.database),
        (
          ((_, refl), quote_libpq_value-IsReadAs (or_default c.ssl_mode (codes "disable"))),
          path_fields-IsSpaced c.search_path,
        ),
      ),
    ),
  ),
)

-- The keys and the values that a connection string is made of.
abbrev pub dsn_keys : DriverConfig → List Text
dsn_keys c =
    codes "host="
    ∷ codes " port="
    ∷ codes " user="
    ∷ codes " password="
    ∷ codes " dbname="
    ∷ codes " sslmode="
    ∷ (if is_blank c.search_path then [] else codes " search_path=" ∷ [])

abbrev pub dsn_values : ℤ → DriverConfig → List Text
dsn_values default_port c =
    c.host
    ∷ format_int (port_of default_port c)
    ∷ c.user
    ∷ c.password
    ∷ c.database
    ∷ or_default c.ssl_mode (codes "disable")
    ∷ (if is_blank c.search_path then [] else c.search_path ∷ [])

fields_of-read :
    (default_port : ℤ) (c : DriverConfig) (path : Text)
    → let c' = record c { search_path = path } in
      read_fields (dsn_keys c') (print_fields (fields_of default_port c'))
      ≡ some (dsn_values default_port c')
fields_of-read default_port c [] =
    let c' = record c { search_path = [] } in
    let spaced = later_fields-IsSpaced default_port c' in
    read_fields-cons (quoted_field (codes "host=") c.host) (later_fields default_port c')
      (quote_libpq_value-IsReadAs c.host) spaced
      (read_fields-print (later_fields default_port c') spaced)
fields_of-read default_port c (x ∷ path) =
    let c' = record c { search_path = x ∷ path } in
    let spaced = later_fields-IsSpaced default_port c' in
    read_fields-cons (quoted_field (codes "host=") c.host) (later_fields default_port c')
      (quote_libpq_value-IsReadAs c.host) spaced
      (read_fields-print (later_fields default_port c') spaced)

-- Of a configuration without a connection string, the one that is made is read back as exactly its values
-- behind their keys, whatever characters they hold: no value can add a parameter or change another one.
pub resolve_dsn-read :
    (default_port : ℤ) (c : DriverConfig)
    → is_blank c.dsn ≡ true
    → read_fields (dsn_keys c) (resolve_dsn default_port c) ≡ some (dsn_values default_port c)
unfolding resolve_dsn
resolve_dsn-read default_port c blank =
    rw (resolve_dsn, blank) (fields_of-read default_port c c.search_path)
