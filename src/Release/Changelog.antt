-- ===== src/Release/Changelog.antt =====
-- scripts/ci_release/adapters/changelog_reader.go, on the content of the file. Reading the file and
-- the cancellation of the context are left to the caller.
pub mod Sections
use devkit_go.Prelude.{
  ℕ, suc, Bool, true, false, ◌&&◌, ◌||◌, List, [], ◌∷◌, ◌++◌, Option, none, some, leb, ◌==◌,
  if◌then◌else◌, Result,
}
use devkit_go.Prelude.Text.{Text, codes, text_eq, split, join}
use devkit_go.Prelude.Decimal.{is_digit, all_digits}
use devkit_go.Release.{Error}
use devkit_go.Release.Version.{SemanticVersion, to_string}
use devkit_go.Release.Commit.{span}
use devkit_go.Release.Candidate.{ChangelogSection, heading_of, new_changelog_section, is_empty}

-- `strings.TrimRight(line, "\r")`
unfoldable pub trim_cr : Text → Text
trim_cr [] = []
trim_cr (c ∷ s) = elim (trim_cr s) [ [] ↦ (if c == b'\r' then [] else c ∷ []) | d ∷ t ↦ c ∷ d ∷ t ]

-- `[0-9]+`
abbrev pub some_digits : Text → Bool
some_digits [] = false
some_digits (c ∷ s) = all_digits (c ∷ s)

abbrev pub three_numbers : List Text → Bool
three_numbers (a ∷ b ∷ c ∷ []) = some_digits a && some_digits b && some_digits c
three_numbers _ = false

-- `v[0-9]+\.[0-9]+\.[0-9]+`
abbrev pub is_version_text : Text → Bool
is_version_text [] = false
is_version_text (c ∷ s) = c == b'v' && three_numbers (split b'.' s)

-- `\s`
abbrev pub is_blank : ℕ → Bool
is_blank c = c == 9 || c == 10 || c == 12 || c == 13 || c == 32

abbrev pub no_newline_text : Text → Bool
no_newline_text [] = true
no_newline_text (c ∷ s) = if c == b'\n' then false else no_newline_text s

-- `\s+-.*` on white space and what follows it.
abbrev pub is_dated : Text × Text → Bool
is_dated ([], rest) = false
is_dated (c ∷ s, []) = false
is_dated (c ∷ s, d ∷ rest) = d == b'-' && no_newline_text rest

-- `(?:\s+-.*)?$`
unfoldable pub match_end : Text → Bool
match_end s = is_empty s || is_dated (span is_blank s)

-- Behind `## [`: the version text and what stands from the bracket on.
abbrev pub match_bracket : Text × Text → Option Text
match_bracket (name, []) = none
match_bracket (name, c ∷ rest) = if is_version_text name && match_end rest then some name else none

-- The group of `^## \[(v[0-9]+\.[0-9]+\.[0-9]+)\](?:\s+-.*)?$`.
unfoldable pub match_heading : Text → Option Text
unfolding match_end span
match_heading (a ∷ b ∷ c ∷ d ∷ s) =
    if text_eq (a ∷ b ∷ c ∷ d ∷ []) (codes "## [")
    then match_bracket (span (λ x. if x == b']' then false else true) s)
    else none
match_heading _ = none

pub record Reading : Type 0 where
  pub occurrences : ℕ
  pub found_heading : Text
  pub body_lines : List Text
  pub capturing : Bool

-- A heading of the version.
abbrev pub open_section : SemanticVersion → Reading → Reading
open_section version r =
    if r.capturing then record r { occurrences = suc r.occurrences } else record {
      occurrences = suc r.occurrences;
      found_heading = heading_of version;
      body_lines = [];
      capturing = true;
    }

-- Any line that is no heading.
abbrev pub keep_line : Text → Reading → Reading
keep_line trimmed r =
    if r.capturing then record r { body_lines = r.body_lines ++ trimmed ∷ [] } else r

-- The loop over the lines; `break` returns.
unfoldable pub scan_lines : SemanticVersion → Reading → List Text → Reading
scan_lines version r [] = r
scan_lines version r (line ∷ lines) = elim (match_heading (trim_cr line)) [
  | none ↦ scan_lines version (keep_line (trim_cr line) r) lines
  | some found ↦ elim (text_eq found (to_string version)) [
    | true ↦ scan_lines version (open_section version r) lines
    | false ↦ elim r.capturing [ true ↦ r | false ↦ scan_lines version r lines ]
  ]
]

abbrev pub start : Reading
start = record { occurrences = 0; found_heading = []; body_lines = []; capturing = false }

unfoldable pub read_version_section : Text → SemanticVersion → Result Error ChangelogSection
read_version_section content version =
    let r = scan_lines version start (split b'\n' content) in
    new_changelog_section version r.found_heading (join (codes "\n") r.body_lines) r.occurrences
