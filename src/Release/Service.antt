-- ===== src/Release/Service.antt =====
-- scripts/ci_release/app/service.go, and `run` of scripts/ci_release/main.go behind the flags. The
-- interfaces are a record of their answers; every call of them is logged in order. An answer may
-- depend on the arguments; no function here makes the same call twice.
pub mod Safety
use devkit_go.Prelude.{
  Bool, true, false, not, ◌&&◌, ◌||◌, List, [], ◌∷◌, ◌++◌, Option, none, some, if◌then◌else◌,
  Result, ok, err, panic, fail_if,
}
use devkit_go.Prelude.Text.{Text, codes, text_eq, trim_space}
use devkit_go.Release.{
  Error, changelog_path_required, validation_gate_failed, unsupported_command, no_version_increment,
  missing_changelog_section, tag_already_exists,
}
use devkit_go.Release.Version.{SemanticVersion, to_string}
use devkit_go.Release.Commit.{CommitDescriptor}
use devkit_go.Release.Candidate.{
  ValidationGateStatus, ChangelogSection, markdown, is_empty, all_passed, new_release_candidate,
}

pub record WorkflowContext : Type 0 where
  pub repository : Text
  pub ref_name : Text
  pub run_id : Text
  pub actor : Text

pub record PlanRequest : Type 0 where
  pub workflow : WorkflowContext
  pub gate_status : ValidationGateStatus
  pub changelog_path : Text

pub record ReleasePlan : Type 0 where
  pub base_version : Option SemanticVersion
  pub next_version : SemanticVersion
  pub notes : ChangelogSection
  pub commits : List CommitDescriptor
  pub bootstrap : Bool

pub record ReleaseOutput : Type 0 where
  pub version : Text
  pub notes : Text

-- The answers of VersionResolver, ChangelogReader, GitMetadataReader, ReleasePublisher and
-- GateEvaluator.
pub record Ports : Type 0 where
  pub validate : WorkflowContext → ValidationGateStatus → Result Error (Unit {0})
  pub latest_tag : Result Error (Option SemanticVersion)
  pub commits_since : Option SemanticVersion → Result Error (List CommitDescriptor)
  pub resolve_next_version :
      Option SemanticVersion → List CommitDescriptor → Result Error SemanticVersion
  pub read_version_section : Text → SemanticVersion → Result Error ChangelogSection
  pub tag_exists : SemanticVersion → Result Error Bool
  pub create_and_push_tag : SemanticVersion → Result Error (Unit {0})
  pub publish : SemanticVersion → ChangelogSection → Result Error (Unit {0})

pub data Call : Type 0 where
  validated : Call
  asked_latest_tag : Call
  asked_commits : Option SemanticVersion → Call
  resolved : Call
  read_section : SemanticVersion → Call
  asked_tag : SemanticVersion → Call
  pushed_tag : SemanticVersion → Call
  published : SemanticVersion → ChangelogSection → Call

-- A computation that makes calls.
abbrev pub Action : Type 0 → Type 0
Action A = List Call → Result Error A × List Call

abbrev pub on_result : {A B : Type 0} → (A → Action B) → Result Error A → Action B
on_result f (ok a) log = f a log
on_result f (err e) log = (err e, log)
on_result f panic log = (panic, log)

infixl 5 ◌>>=◌ ◌>>◌
unfoldable pub ◌>>=◌ : {A B : Type 0} → Action A → (A → Action B) → Action B
◌>>=◌ m f log = let (r, log') = m log in on_result f r log'

abbrev pub ◌>>◌ : {B : Type 0} → Action (Unit {0}) → Action B → Action B
m >> k = m >>= λ _. k

unfoldable pub lift : {A : Type 0} → Result Error A → Action A
lift r log = (r, log)

unfoldable pub call : {A : Type 0} → Call → Result Error A → Action A
call c r log = (r, log ++ c ∷ [])

module _ (ports : Ports) where
  unfoldable pub plan_release : PlanRequest → Action ReleasePlan
  plan_release request = do
    lift (fail_if (is_empty (trim_space request.changelog_path)) changelog_path_required)
    call validated (ports.validate request.workflow request.gate_status)
    base_version ← call asked_latest_tag ports.latest_tag
    commits ← call (asked_commits base_version) (ports.commits_since base_version)
    next_version ← call resolved (ports.resolve_next_version base_version commits)
    notes ←
        call (read_section next_version)
          (ports.read_version_section request.changelog_path next_version)
    tag_exists ← call (asked_tag next_version) (ports.tag_exists next_version)
    candidate ← lift (
        new_release_candidate request.workflow.ref_name base_version next_version notes
          request.gate_status tag_exists)
    lift (
        ok (record {
          base_version = base_version;
          next_version = next_version;
          notes = notes;
          commits = commits;
          bootstrap = elim base_version [ none ↦ true | some _ ↦ false ];
        }))

  unfoldable pub publish_release : ReleasePlan → Action ReleaseOutput
  publish_release plan = do
    call (pushed_tag plan.next_version) (ports.create_and_push_tag plan.next_version)
    call (published plan.next_version plan.notes) (ports.publish plan.next_version plan.notes)
    lift (ok (record { version = to_string plan.next_version; notes = markdown plan.notes }))

-- `gateEvaluator.Validate` of main.go.
unfoldable pub validate_gates : WorkflowContext → ValidationGateStatus → Result Error (Unit {0})
validate_gates workflow status = if all_passed status then ok tt else err validation_gate_failed

unfoldable pub is_release_skippable : Error → Bool
is_release_skippable no_version_increment = true
is_release_skippable missing_changelog_section = true
is_release_skippable tag_already_exists = true
is_release_skippable _ = false

-- What is written to the standard output.
pub data Output : Type 0 where
  plan_output : ReleasePlan → Output
  publish_output : ReleasePlan → ReleaseOutput → Output
  skipped : Error → Output

abbrev pub is_command : Text → Bool
is_command command = text_eq command (codes "plan") || text_eq command (codes "publish")

-- `writeSkippedRelease`
unfoldable pub write_skipped_release : Text → Error → Result Error Output
write_skipped_release command reason =
    if is_command command then ok (skipped reason) else err unsupported_command

-- `run` behind the call of `PlanRelease`.
unfoldable pub respond : Ports → Text → Result Error ReleasePlan → Action Output
unfolding publish_release ◌>>=◌ lift call is_release_skippable write_skipped_release
respond ports command panic log = (panic, log)
respond ports command (err e) log =
    if is_release_skippable e then (write_skipped_release command e, log) else (err e, log)
respond ports command (ok plan) log =
    if text_eq command (codes "plan")
    then (ok (plan_output plan), log)
    else if text_eq command (codes "publish")
    then (publish_release ports plan >>= λ output. lift (ok (publish_output plan output))) log
    else (err unsupported_command, log)

unfoldable pub run : Ports → Text → PlanRequest → Action Output
unfolding plan_release respond
run ports command request log =
    let (planned, log') = plan_release ports request log in respond ports command planned log'
