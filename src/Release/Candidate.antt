-- ===== src/Release/Candidate.antt =====
-- scripts/ci_release/domain/release_candidate.go.
pub mod Guarantees
use devkit_go.Prelude.{
  ℕ, zero, suc, Bool, true, false, not, ◌&&◌, ◌||◌, List, [], ◌∷◌, ◌++◌, Option, none, some, leb,
  ◌==◌, if◌then◌else◌, Result, ok, err, ◌>>=◌, ◌>>◌, fail_if,
}
use devkit_go.Prelude.Int.{ℤ, pos, eqb_ℤ, leb_ℤ}
use devkit_go.Prelude.Text.{Text, codes, text_eq, trim_space}
use devkit_go.Release.{
  Error, missing_changelog_section, ambiguous_changelog_section, release_branch_not_allowed,
  validation_gate_failed, tag_already_exists, invalid_release_candidate,
}
use devkit_go.Release.Version.{SemanticVersion, to_string, compare, bootstrap_version}

abbrev pub allowed_release_branch : Text
allowed_release_branch = codes "main"

pub record ValidationGateStatus : Type 0 where
  pub lint : Bool
  pub unit_gate : Bool
  pub integration : Bool
  pub vulncheck : Bool

pub record ChangelogSection : Type 0 where
  pub version : SemanticVersion
  pub heading_line : Text
  pub body : Text
  pub occurrences : ℕ

pub record ReleaseCandidate : Type 0 where
  pub branch : Text
  pub base_version : Option SemanticVersion
  pub next_version : SemanticVersion
  pub notes : ChangelogSection
  pub gate_status : ValidationGateStatus
  pub target_tag_exists : Bool
  pub bootstrap : Bool

abbrev pub is_empty : Text → Bool
is_empty [] = true
is_empty (c ∷ s) = false

-- `fmt.Sprintf("## [%s]", version.String())`
unfoldable pub heading_of : SemanticVersion → Text
heading_of v = codes "## [" ++ (to_string v ++ codes "]")

unfoldable pub new_changelog_section :
    SemanticVersion → Text → Text → ℕ → Result Error ChangelogSection
new_changelog_section version heading_line body occurrences = do
  fail_if (occurrences == 0) missing_changelog_section
  fail_if (not (leb occurrences 1)) ambiguous_changelog_section
  fail_if (not (text_eq heading_line (heading_of version))) missing_changelog_section
  let trimmed_body = trim_space body
  fail_if (is_empty trimmed_body) missing_changelog_section
  ok (record {
    version = version;
    heading_line = heading_line;
    body = trimmed_body;
    occurrences = occurrences;
  })

unfoldable pub markdown : ChangelogSection → Text
markdown c = c.heading_line ++ (codes "\n\n" ++ c.body)

unfoldable pub is_unique : ChangelogSection → Bool
is_unique c = c.occurrences == 1

-- `append(failed, name)` for a gate that did not pass.
abbrev pub failed_unless : Bool → Text → List Text → List Text
failed_unless true name failed = failed
failed_unless false name failed = failed ++ name ∷ []

unfoldable pub failed_gate_names : ValidationGateStatus → List Text
failed_gate_names v = failed_unless v.vulncheck (codes "vulncheck") (
    failed_unless v.integration (codes "integration")
      (failed_unless v.unit_gate (codes "unit") (failed_unless v.lint (codes "lint") [])))

unfoldable pub all_passed : ValidationGateStatus → Bool
unfolding failed_gate_names
all_passed v = elim (failed_gate_names v) [ [] ↦ true | name ∷ names ↦ false ]

-- The last test: the bootstrap version without a base, and a greater version than the base with one.
unfoldable pub check_next : Option SemanticVersion → SemanticVersion → Result Error Bool
check_next none next =
    if not (eqb_ℤ (compare next bootstrap_version) (pos 0))
    then err invalid_release_candidate
    else ok true
check_next (some base) next =
    if leb_ℤ (compare next base) (pos 0) then err invalid_release_candidate else ok false

unfoldable pub new_release_candidate :
    Text
    → Option SemanticVersion
    → SemanticVersion
    → ChangelogSection
    → ValidationGateStatus
    → Bool
    → Result Error ReleaseCandidate
unfolding check_next
new_release_candidate branch base next notes gates target_tag_exists = do
  fail_if (not (text_eq branch allowed_release_branch)) release_branch_not_allowed
  fail_if (not (all_passed gates)) validation_gate_failed
  fail_if target_tag_exists tag_already_exists
  fail_if
      (not (eqb_ℤ (compare notes.version next) (pos 0))
        || not (is_unique notes)
        || is_empty (trim_space notes.body))
      invalid_release_candidate
  bootstrap ← check_next base next
  ok (record {
    branch = branch;
    base_version = base;
    next_version = next;
    notes = notes;
    gate_status = gates;
    target_tag_exists = target_tag_exists;
    bootstrap = bootstrap;
  })
