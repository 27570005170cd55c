-- ===== src/Release/Version.antt =====
-- scripts/ci_release/domain/semantic_version.go. The numbers of a version are int64 (Go's int).
pub mod Print
pub mod Order
use devkit_go.Prelude.{
  ℕ, Bool, true, false, not, ◌&&◌, List, [], ◌∷◌, ◌++◌, Option, none, some, ◌==◌, if◌then◌else◌,
  Result, ok, err, ◌>>=◌,
}
use devkit_go.Prelude.Int.{ℤ, pos, negsuc, ltb_ℤ, eqb_ℤ}
use devkit_go.Prelude.Int64.{add64}
use devkit_go.Prelude.Text.{Text, split}
use devkit_go.Prelude.Decimal.{format_int, parse_int}
use devkit_go.Prelude.Decimal.RoundTrip.{is_canonical}
use devkit_go.Release.{Error, invalid_semantic_version, invalid_version_increment}

-- `unknown` is every other text, the empty one included.
pub data VersionIncrement : Type 0 where
  major minor patch unknown : VersionIncrement

pub record SemanticVersion : Type 0 where
  pub major_number : ℤ
  pub minor_number : ℤ
  pub patch_number : ℤ

-- The groups of `^v(0|[1-9][0-9]*)\.(0|[1-9][0-9]*)\.(0|[1-9][0-9]*)$`: three numbers without
-- leading zeros between dots.
pub match_numbers : List Text → Option (Text × Text × Text)
match_numbers (a ∷ b ∷ c ∷ []) =
    if is_canonical a && is_canonical b && is_canonical c then some (a, b, c) else none
match_numbers _ = none

unfoldable pub match_version : Text → Option (Text × Text × Text)
unfolding match_numbers
match_version [] = none
match_version (c ∷ s) = if c == b'v' then match_numbers (split b'.' s) else none

-- `strconv.Atoi` with the error that the caller wraps.
abbrev pub atoi : Text → Result Error ℤ
atoi s = elim (parse_int s) [ none ↦ err invalid_semantic_version | some n ↦ ok n ]

unfoldable pub parse_semantic_version : Text → Result Error SemanticVersion
parse_semantic_version raw = elim (match_version raw) [
  | none ↦ err invalid_semantic_version
  | some (a, b, c) ↦ do
    x ← atoi a
    y ← atoi b
    z ← atoi c
    ok (record { major_number = x; minor_number = y; patch_number = z })
]

unfoldable pub bootstrap_version : SemanticVersion
bootstrap_version = record { major_number = pos 0; minor_number = pos 1; patch_number = pos 0 }

-- `String`.
unfoldable pub to_string : SemanticVersion → Text
to_string v =
    b'v'
    ∷ (format_int v.major_number
        ++ b'.' ∷ (format_int v.minor_number ++ b'.' ∷ format_int v.patch_number))

unfoldable pub compare_int : ℤ → ℤ → ℤ
compare_int left right =
    if ltb_ℤ left right then negsuc 0 else if ltb_ℤ right left then pos 1 else pos 0

unfoldable pub compare : SemanticVersion → SemanticVersion → ℤ
unfolding compare_int
compare v other =
    if not (eqb_ℤ v.major_number other.major_number)
    then compare_int v.major_number other.major_number
    else if not (eqb_ℤ v.minor_number other.minor_number)
    then compare_int v.minor_number other.minor_number
    else compare_int v.patch_number other.patch_number

unfoldable pub bump : SemanticVersion → VersionIncrement → Result Error SemanticVersion
bump v major = ok (record {
  major_number = add64 v.major_number (pos 1);
  minor_number = pos 0;
  patch_number = pos 0;
})
bump v minor = ok (record {
  major_number = v.major_number;
  minor_number = add64 v.minor_number (pos 1);
  patch_number = pos 0;
})
bump v patch = ok (record {
  major_number = v.major_number;
  minor_number = v.minor_number;
  patch_number = add64 v.patch_number (pos 1);
})
bump v unknown = err invalid_version_increment
