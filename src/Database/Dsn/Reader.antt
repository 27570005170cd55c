-- ===== src/Database/Dsn/Reader.antt =====
-- A reader of connection strings, as the documentation of libpq describes them.
use devkit_go.Prelude.{ℕ, ◌==◌, Bool, true, false, Option, none, some, List, [], ◌∷◌, if◌then◌else◌}
use devkit_go.Prelude.Text.{Text}
use devkit_go.Database.Dsn.{is_white}

abbrev pub front : ℕ → Option (Text × Text) → Option (Text × Text)
front c none = none
front c (some (v, rest)) = some (c ∷ v, rest)

-- A quoted value: a backslash takes the next character as it is, and the quote ends the value.
unfoldable pub read_quoted : Bool → Text → Option (Text × Text)
read_quoted escaped [] = none
read_quoted true (c ∷ s) = front c (read_quoted false s)
read_quoted false (c ∷ s) =
    let escaped = read_quoted true s in
    let later = read_quoted false s in
    if c == 39 then some ([], s) else if c == 92 then escaped else front c later

-- Another value ends at white space.
unfoldable pub read_plain : Bool → Text → Option (Text × Text)
read_plain escaped [] = some ([], [])
read_plain true (c ∷ s) = front c (read_plain false s)
read_plain false (c ∷ s) =
    let escaped = read_plain true s in
    let later = read_plain false s in
    if is_white c then some ([], c ∷ s) else if c == 92 then escaped else front c later

unfoldable pub read_value : Text → Option (Text × Text)
read_value [] = some ([], [])
read_value (c ∷ s) = if c == 39 then read_quoted false s else read_plain false (c ∷ s)

unfoldable pub strip : Text → Text → Option Text
strip [] s = some s
strip (k ∷ key) [] = none
strip (k ∷ key) (c ∷ s) = let rest = strip key s in if k == c then rest else none

abbrev pub cons_value : Text → Option (List Text) → Option (List Text)
cons_value v none = none
cons_value v (some vs) = some (v ∷ vs)

-- Values behind given keys, and nothing else.
unfoldable pub read_fields : List Text → Text → Option (List Text)
read_fields [] [] = some []
read_fields [] (c ∷ s) = none
read_fields (key ∷ keys) s = elim (strip key s) [
  | none ↦ none
  | some at ↦ elim (read_value at) [
    | none ↦ none
    | some (v, rest) ↦ cons_value v (read_fields keys rest)
  ]
]
