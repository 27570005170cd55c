-- ===== src/Release/Cli/Tests.antt =====
-- The theorems on the command line in a repository without tags.
use devkit_go.Prelude.{
  ◌≡◌, ◌⊎◌, refl, Bool, true, false, List, [], ◌∷◌, ◌++◌, arith, All, Result, ok, err,
  if◌then◌else◌,
}
use devkit_go.Prelude.Text.{Text, codes, text_eq}
use devkit_go.Release.Service.{Call, pushed_tag, ReleasePlan}
use devkit_go.Release.Service.Safety.{IsRead, IsPlanned}
use devkit_go.Release.Cli.{
  CliConfig, World, default_config, parse_cli_config, build_service, request_of, run_cli,
}
use devkit_go.Release.Cli.Safety.{KeepsCommand, run_cli-safe}

-- The environment sets every variable to "main"; the only flags are those of the gates.
abbrev fresh : World
fresh = record {
  getenv = λ name. codes "main";
  parse_flags = λ defaults args. ok (record defaults {
    gates = record { lint = true; unit_gate = true; integration = true; vulncheck = true };
  });
  clean = λ path. path;
  git = λ path run. ok [];
  read_file = λ path. ok (codes "## [v0.1.0]\n- first\n");
  publish_release = λ config version notes. ok tt;
}

fresh-KeepsCommand : KeepsCommand fresh
fresh-KeepsCommand defaults args config e = ground arith

abbrev arguments : List Text
arguments = codes "--" ∷ codes "publish" ∷ codes "-lint" ∷ []

abbrev configured : CliConfig
configured = record {
  command = codes "publish";
  repository = codes "main";
  ref_name = codes "main";
  run_id = codes "main";
  actor = codes "main";
  changelog_path = codes "CHANGELOG.md";
  repo_path = codes ".";
  git_hub_api_url = codes "https://api.github.com";
  token = codes "main";
  gates = record { lint = true; unit_gate = true; integration = true; vulncheck = true };
}

accepted : parse_cli_config fresh arguments ≡ ok configured
unfolding parse_cli_config devkit_go.Release.Cli.parse_command text_eq
    devkit_go.Release.Cli.check_config devkit_go.Prelude.Text.trim_space default_config
    devkit_go.Release.Cli.first_non_empty
accepted = refl

run_cli-safe_example :
    All IsRead (run_cli fresh arguments []).1
    ⊎ ((config : CliConfig) × (parse_cli_config fresh arguments ≡ ok config)
        × (config.command ≡ codes "publish")
        × (plan : ReleasePlan) × IsPlanned
            (build_service fresh config)
            (request_of fresh config)
            plan
        × (reads : List Call) × (writes : List Call) × All IsRead reads
        × ((run_cli fresh arguments []).1 ≡ reads ++ pushed_tag plan.next_version ∷ writes))
run_cli-safe_example = run_cli-safe fresh arguments
