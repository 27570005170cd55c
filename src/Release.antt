-- ===== src/Release.antt =====
-- scripts/ci_release: from the commits since the last tag to a published release.
pub mod Version
pub mod Commit
pub mod Candidate
pub mod Changelog
pub mod Git
pub mod Service
pub mod Cli
mod Tests
use devkit_go.Prelude.{Result}

-- scripts/ci_release/domain/errors.go, and the errors of app/service.go and main.go. `external` is
-- an error that git, the file system, the GitHub API, or a flag gave; the texts that wrap an error
-- are left out.
pub data Error : Type 0 where
  invalid_semantic_version : Error
  invalid_version_increment : Error
  invalid_conventional_commit : Error
  no_version_increment : Error
  unsupported_commit_type : Error
  missing_changelog_section : Error
  ambiguous_changelog_section : Error
  release_branch_not_allowed : Error
  validation_gate_failed : Error
  tag_already_exists : Error
  invalid_release_candidate : Error
  changelog_path_required : Error
  unsupported_command : Error
  command_required : Error
  ref_name_required : Error
  repository_required : Error
  token_required : Error
  external : Error
