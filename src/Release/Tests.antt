-- ===== src/Release/Tests.antt =====
-- The theorems on the release tool at concrete versions, commits, changelogs and requests.
use devkit_go.Prelude.{
  ℕ, ◌^◌, ◌-◌, ◌≡◌, ◌≢◌, ◌⊎◌, ◌↔◌, inl, inr, refl, sym, ◌∙◌, Bool, true, false, List, [], ◌∷◌, ◌++◌,
  arith, Option, none, some, All, if◌then◌else◌, Result, ok, err, ◌>>=◌,
}
use devkit_go.Prelude.Int.{ℤ, pos, negsuc, ◌-ℤ◌}
use devkit_go.Prelude.Text.{Text, codes, split, join, trim_space}
use devkit_go.Release.{Error, missing_changelog_section, ambiguous_changelog_section}
use devkit_go.Release.Version.{
  major, minor, SemanticVersion, parse_semantic_version, bootstrap_version, to_string, compare,
  bump,
}
use devkit_go.Release.Version.Print.{IsValid, parse-to_string, to_string-parse}
use devkit_go.Release.Commit.{
  CommitDescriptor, Groups, match_subject, resolve_next_version, bump_selected,
}
use devkit_go.Release.Commit.Pattern.{IsCommitGroups}
use devkit_go.Release.Commit.Resolve.{classify_all, strongest, resolve-strongest}
use devkit_go.Release.Candidate.{
  ValidationGateStatus, ChangelogSection, ReleaseCandidate, heading_of, is_empty, all_passed,
  new_release_candidate,
}
use devkit_go.Release.Candidate.Guarantees.{IsReleasable, candidate, candidate_iff}
use devkit_go.Release.Changelog.{read_version_section}
use devkit_go.Release.Changelog.Sections.{read_section}
use devkit_go.Release.Service.{
  WorkflowContext, PlanRequest, ReleasePlan, Ports, Call, pushed_tag, published, plan_release,
  publish_release, validate_gates, run,
}

abbrev v123 : SemanticVersion
v123 = record { major_number = pos 1; minor_number = pos 2; patch_number = pos 3 }

abbrev v130 : SemanticVersion
v130 = record { major_number = pos 1; minor_number = pos 3; patch_number = pos 0 }

abbrev v200 : SemanticVersion
v200 = record { major_number = pos 2; minor_number = pos 0; patch_number = pos 0 }

v123-IsValid : IsValid v123
v123-IsValid = record {
  major_natural = (1, refl, omega arith);
  minor_natural = (2, refl, omega arith);
  patch_natural = (3, refl, omega arith);
}

parse-to_string_example : parse_semantic_version (to_string v123) ≡ ok v123
parse-to_string_example = parse-to_string v123 v123-IsValid

abbrev v123_text : Text
v123_text = codes "v1.2.3"

v123_parsed : parse_semantic_version v123_text ≡ ok v123
unfolding parse_semantic_version devkit_go.Release.Version.match_version split
    devkit_go.Prelude.Decimal.parse_int
v123_parsed = refl

to_string-parse_example : (to_string v123 ≡ v123_text) × IsValid v123
to_string-parse_example = to_string-parse v123_text {v = v123} v123_parsed

less_v130 : compare v123 v130 ≡ negsuc 0
unfolding compare
less_v130 = refl

less_v200 : compare v130 v200 ≡ negsuc 0
unfolding compare
less_v200 = refl

bump_minor : bump v123 minor ≡ ok v130
unfolding bump devkit_go.Prelude.Int64.add64 devkit_go.Prelude.Int64.wrap64
    devkit_go.Prelude.Int.◌+ℤ◌
bump_minor = refl

abbrev feature_groups : Groups
feature_groups = record {
  kind = codes "feat";
  scope = codes "uow";
  bang = true;
  description = codes "retry";
}

feature_shape : IsCommitGroups feature_groups
feature_shape = record {
  kind_lower = ground arith;
  kind_some = λ h. ground arith;
  scope_closed = ground arith;
  description_some = λ h. ground arith;
  description_line = refl;
}

abbrev feature_subject : Text
feature_subject = codes "feat(uow)!: retry"

feature_matched : match_subject feature_subject ≡ some feature_groups
unfolding match_subject
feature_matched = refl

abbrev commits : List CommitDescriptor
commits =
    record { sha = codes "a"; subject = codes "fix: leak"; body = [] }
    ∷ record { sha = codes "b"; subject = codes "feat(uow): retry"; body = [] }
    ∷ record { sha = codes "c"; subject = codes "docs: readme"; body = [] }
    ∷ []

resolve-strongest_example :
    resolve_next_version (some v123) commits
    ≡ (classify_all commits >>= λ cs. bump_selected v123 (strongest cs))
resolve-strongest_example = resolve-strongest v123 commits

resolved_v130 : resolve_next_version (some v123) commits ≡ ok v130
unfolding resolve_next_version devkit_go.Release.Commit.scan_commits
    devkit_go.Release.Commit.classify devkit_go.Release.Commit.parse_conventional_commit
    match_subject devkit_go.Release.Commit.is_supported_commit_type devkit_go.Prelude.Text.text_mem
    devkit_go.Prelude.Text.text_eq bump_selected devkit_go.Release.Commit.increment
    devkit_go.Release.Commit.has_breaking_footer split devkit_go.Prelude.Text.has_prefix trim_space
    devkit_go.Release.Commit.rank_increment bump devkit_go.Prelude.Int64.add64
    devkit_go.Prelude.Int.◌+ℤ◌ devkit_go.Prelude.Int64.wrap64 devkit_go.Prelude.Text.is_space
    devkit_go.Prelude.Text.trim_left devkit_go.Prelude.Text.trim_right
    devkit_go.Release.Commit.any_breaking devkit_go.Release.Commit.match_bang
    devkit_go.Release.Commit.match_scope devkit_go.Release.Commit.match_tail
    devkit_go.Release.Commit.span bootstrap_version
resolved_v130 = refl

abbrev passed : ValidationGateStatus
passed = record { lint = true; unit_gate = true; integration = true; vulncheck = true }

abbrev v130_notes : ChangelogSection
v130_notes = record {
  version = v130;
  heading_line = codes "## [v1.3.0]";
  body = codes "- retry";
  occurrences = 1;
}

abbrev v130_candidate : ReleaseCandidate
v130_candidate = candidate (codes "main") (some v123) v130 v130_notes passed false

candidate_iff_example :
    (new_release_candidate (codes "main") (some v123) v130 v130_notes passed false
      ≡ ok v130_candidate)
    ↔ (IsReleasable (codes "main") (some v123) v130 v130_notes passed false
        × (v130_candidate ≡ v130_candidate))
candidate_iff_example =
    candidate_iff (codes "main") (some v123) v130 v130_notes passed false v130_candidate

abbrev changelog : Text
changelog = codes "# Changelog\n## [v1.3.0] - 2026-01-02\n- retry\n## [v1.2.3]\n- leak\n"

abbrev doubled : Text
doubled = codes "## [v1.3.0]\n- retry\n## [v1.3.0]\n- again"

abbrev changelog_before : List Text
changelog_before = codes "# Changelog" ∷ []

abbrev changelog_rest : List Text
changelog_rest = codes "## [v1.2.3]" ∷ codes "- leak" ∷ [] ∷ []

read_section_example :
    read_version_section changelog v130
    ≡ ok (record {
      version = v130;
      heading_line = heading_of v130;
      body = codes "- retry";
      occurrences = 1;
    })
unfolding split devkit_go.Release.Changelog.match_heading devkit_go.Release.Changelog.trim_cr
    devkit_go.Prelude.Text.text_eq to_string devkit_go.Prelude.Decimal.format_int trim_space join
read_section_example =
    read_section v130 changelog changelog_before (codes "## [v1.3.0] - 2026-01-02")
      (codes "- retry" ∷ []) changelog_rest refl (inl refl, tt) refl (refl, tt)
      (v123_text, refl, refl)

abbrev one_heading : Text
one_heading = codes "## [v1.2.3]"

-- A repository with the tag v1.2.3, in which pushes and releases succeed.
abbrev repository : Ports
repository = record {
  validate = validate_gates;
  latest_tag = ok (some v123);
  commits_since = λ base. ok commits;
  resolve_next_version = resolve_next_version;
  read_version_section = λ path version. read_version_section changelog version;
  tag_exists = λ version. ok false;
  create_and_push_tag = λ version. ok tt;
  publish = λ version notes. ok tt;
}

abbrev request : PlanRequest
request = record {
  workflow = record {
    repository = codes "devkit-go";
    ref_name = codes "main";
    run_id = codes "1";
    actor = codes "bot";
  };
  gate_status = passed;
  changelog_path = codes "CHANGELOG.md";
}

abbrev v130_plan : ReleasePlan
v130_plan = record {
  base_version = some v123;
  next_version = v130;
  notes = v130_notes;
  commits = commits;
  bootstrap = false;
}

planned_v130 : (plan_release repository request []).0 ≡ ok v130_plan
unfolding parse_semantic_version devkit_go.Release.Version.match_version split
    devkit_go.Prelude.Decimal.parse_int compare bump devkit_go.Prelude.Int64.add64
    devkit_go.Prelude.Int64.wrap64 devkit_go.Prelude.Int.◌+ℤ◌ match_subject resolve_next_version
    devkit_go.Release.Commit.scan_commits devkit_go.Release.Commit.classify
    devkit_go.Release.Commit.parse_conventional_commit
    devkit_go.Release.Commit.is_supported_commit_type devkit_go.Prelude.Text.text_mem
    devkit_go.Prelude.Text.text_eq bump_selected devkit_go.Release.Commit.increment
    devkit_go.Release.Commit.has_breaking_footer devkit_go.Prelude.Text.has_prefix trim_space
    devkit_go.Release.Commit.rank_increment devkit_go.Prelude.Text.is_space
    devkit_go.Prelude.Text.trim_left devkit_go.Prelude.Text.trim_right
    devkit_go.Release.Commit.any_breaking devkit_go.Release.Commit.match_bang
    devkit_go.Release.Commit.match_scope devkit_go.Release.Commit.match_tail
    devkit_go.Release.Commit.span bootstrap_version devkit_go.Release.Changelog.match_heading
    devkit_go.Release.Changelog.trim_cr to_string devkit_go.Prelude.Decimal.format_int join
    all_passed devkit_go.Release.Candidate.check_next devkit_go.Release.Candidate.is_unique
    devkit_go.Release.Service.call devkit_go.Release.Service.lift devkit_go.Release.Service.◌>>=◌
    new_release_candidate plan_release read_version_section validate_gates heading_of
    devkit_go.Release.Changelog.scan_lines devkit_go.Release.Candidate.new_changelog_section
    devkit_go.Release.Version.compare_int
planned_v130 = refl
