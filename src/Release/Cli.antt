-- ===== src/Release/Cli.antt =====
-- `run` and `parseCLIConfig` of scripts/ci_release/main.go. What package flag makes of the flags, the
-- environment, `filepath.Clean`, git, the file system and the GitHub API are parameters.
pub mod Safety
mod Tests
use devkit_go.Prelude.{
  Bool, true, false, not, ◌&&◌, List, [], ◌∷◌, if◌then◌else◌, Result, ok, err, ◌>>=◌, ◌>>◌, fail_if,
}
use devkit_go.Prelude.Text.{Text, codes, text_eq, trim_space}
use devkit_go.Release.{
  Error, unsupported_command, command_required, ref_name_required, repository_required,
  token_required, changelog_path_required,
}
use devkit_go.Release.Version.{SemanticVersion}
use devkit_go.Release.Commit
use devkit_go.Release.Candidate.{ValidationGateStatus, ChangelogSection, is_empty}
use devkit_go.Release.Changelog
use devkit_go.Release.Git
use devkit_go.Release.Git.{Runner}
use devkit_go.Release.Service
use devkit_go.Release.Service.{
  Ports, PlanRequest, Action, Output, on_result, validate_gates, is_command,
}

pub record CliConfig : Type 0 where
  pub command : Text
  pub repository : Text
  pub ref_name : Text
  pub run_id : Text
  pub actor : Text
  pub changelog_path : Text
  pub repo_path : Text
  pub git_hub_api_url : Text
  pub token : Text
  pub gates : ValidationGateStatus

abbrev pub default_git_hub_api_url : Text
default_git_hub_api_url = codes "https://api.github.com"

abbrev pub is_blank : Text → Bool
is_blank s = is_empty (trim_space s)

unfoldable pub first_non_empty : List Text → Text
first_non_empty [] = []
first_non_empty (value ∷ values) =
    let later = first_non_empty values in if not (is_blank value) then value else later

-- `args[1:]` if the first argument is `--`.
abbrev pub drop_dashes : List Text → List Text
drop_dashes [] = []
drop_dashes (a ∷ args) = if text_eq a (codes "--") then args else a ∷ args

-- The outside world.
pub record World : Type 0 where
  pub getenv : Text → Text
  pub parse_flags : CliConfig → List Text → Result Error CliConfig
  pub clean : Text → Text
  pub git : Text → Runner
  pub read_file : Text → Result Error Text
  pub publish_release : CliConfig → SemanticVersion → ChangelogSection → Result Error (Unit {0})

module _ (world : World) where
  open world use {getenv, parse_flags, clean, git, read_file, publish_release}

  -- What the flags start from.
  unfoldable pub default_config : Text → CliConfig
  default_config command = record {
    command = command;
    repository = trim_space (getenv (codes "GITHUB_REPOSITORY"));
    ref_name = trim_space (getenv (codes "GITHUB_REF_NAME"));
    run_id = trim_space (getenv (codes "GITHUB_RUN_ID"));
    actor = trim_space (getenv (codes "GITHUB_ACTOR"));
    changelog_path = codes "CHANGELOG.md";
    repo_path = codes ".";
    git_hub_api_url = default_git_hub_api_url;
    token = first_non_empty (getenv (codes "GITHUB_TOKEN") ∷ getenv (codes "GH_TOKEN") ∷ []);
    gates = record { lint = false; unit_gate = false; integration = false; vulncheck = false };
  }

  -- Behind `fs.Parse`.
  unfoldable pub check_config : Text → CliConfig → Result Error CliConfig
  check_config command config = do
    fail_if (is_blank config.ref_name) ref_name_required
    fail_if (is_blank config.changelog_path) changelog_path_required
    let publishing = text_eq command (codes "publish")
    fail_if (publishing && is_blank config.repository) repository_required
    fail_if (publishing && is_blank config.token) token_required
    ok (record config {
      repo_path = clean config.repo_path;
      changelog_path = clean config.changelog_path;
    })

  unfoldable pub parse_command : List Text → Result Error CliConfig
  parse_command [] = err command_required
  parse_command (command ∷ args) = do
    fail_if (not (is_command command)) unsupported_command
    config ← parse_flags (default_config command) args
    check_config command config

  unfoldable pub parse_cli_config : List Text → Result Error CliConfig
  parse_cli_config args = parse_command (drop_dashes args)

  -- The adapters as the interfaces of the service.
  unfoldable pub build_service : CliConfig → Ports
  build_service config = record {
    validate = validate_gates;
    latest_tag = Git.latest_tag (git config.repo_path);
    commits_since = Git.commits_since (git config.repo_path);
    resolve_next_version = Commit.resolve_next_version;
    read_version_section = λ path version.
        read_file (clean path) >>= λ content. Changelog.read_version_section content version;
    tag_exists = Git.tag_exists (git config.repo_path);
    create_and_push_tag = λ version. (Git.create_and_push_tag (git config.repo_path) version).0;
    publish = publish_release config;
  }

  unfoldable pub request_of : CliConfig → PlanRequest
  request_of config = record {
    workflow = record {
      repository = config.repository;
      ref_name = config.ref_name;
      run_id = config.run_id;
      actor = config.actor;
    };
    gate_status = config.gates;
    changelog_path = config.changelog_path;
  }

  unfoldable pub run_cli : List Text → Action Output
  run_cli args =
      on_result (λ config. Service.run (build_service config) config.command (request_of config))
        (parse_cli_config args)
