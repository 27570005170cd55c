-- ===== src/Release/Cli/Safety.antt =====
-- What the arguments must be, and what a run of the tool may change.
use devkit_go.Prelude.{
  ◌≡◌, ◌⊎◌, inl, inr, refl, ◌∙◌, true, false, List, [], ◌∷◌, ◌++◌, arith, Bool-cases, Result-cases,
  All, ok, ok_chain,
}
use devkit_go.Prelude.Text.{Text, codes, text_eq}
use devkit_go.Release.Service.{Call, pushed_tag, ReleasePlan, is_command}
use devkit_go.Release.Service.Safety.{IsRead, IsPlanned, run-safe}
use devkit_go.Release.Cli.{
  CliConfig, World, is_blank, drop_dashes, check_config, parse_command, parse_cli_config,
  build_service, request_of, run_cli, default_config,
}

-- A configuration that the tool may run with.
pub record IsRunnable (config : CliConfig) : Type 0 where
  pub known : is_command config.command ≡ true
  pub on_ref : is_blank config.ref_name ≡ false
  pub publishable :
      (text_eq config.command (codes "publish") ≡ false)
      ⊎ ((is_blank config.repository ≡ false) × (is_blank config.token ≡ false))

-- Package flag sets the fields that flags are defined for, and the command is none of them.
abbrev pub KeepsCommand : World → Type 0
KeepsCommand world =
    (defaults : CliConfig) (args : List Text) (config : CliConfig)
    → world.parse_flags defaults args ≡ ok config
    → config.command ≡ defaults.command

-- What passes the checks.
check_config-ok :
    (world : World) (command : Text) (config : CliConfig) {checked : CliConfig}
    → check_config world command config ≡ ok checked
    → (is_blank config.ref_name ≡ false)
      × ((text_eq command (codes "publish") ≡ false)
          ⊎ ((is_blank config.repository ≡ false) × (is_blank config.token ≡ false)))
      × (checked ≡ record config {
        repo_path = world.clean config.repo_path;
        changelog_path = world.clean config.changelog_path;
      })
unfolding check_config
check_config-ok world command config {checked} h = ground arith

check_config-IsRunnable :
    (world : World) (command : Text) (config : CliConfig) {checked : CliConfig}
    → is_command command ≡ true
    → config.command ≡ command
    → check_config world command config ≡ ok checked
    → IsRunnable checked
check_config-IsRunnable world command config {checked} k e h =
    let (ref, publishing, made) = check_config-ok world command config {checked = checked} h in
    rw made (record { known = rw e k; on_ref = ref; publishable = rw e publishing })

parse_command-ok :
    (world : World) (command : Text) (args : List Text) {config : CliConfig}
    → parse_command world (command ∷ args) ≡ ok config
    → (is_command command ≡ true)
      × (parsed : CliConfig) × (world.parse_flags (default_config world command) args ≡ ok parsed)
      × (check_config world command parsed ≡ ok config)
unfolding parse_command
parse_command-ok world command args {config} h = elim (Bool-cases (is_command command)) [
  | inr unknown ↦ absurd (ground arith)
  | inl known ↦
      let (parsed, flags, checks) =
        ok_chain (world.parse_flags (default_config world command) args)
          (λ config. check_config world command config) {result = config} (ground arith) in
      (known, parsed, flags, checks)
]

parse_command-IsRunnable :
    (world : World) (args : List Text) {config : CliConfig}
    → KeepsCommand world
    → parse_command world args ≡ ok config
    → IsRunnable config
unfolding parse_command
parse_command-IsRunnable world [] keeps h = cc
parse_command-IsRunnable world (command ∷ args) {config} keeps h =
    let (known, parsed, flags, h1) = parse_command-ok world command args {config = config} h in
    check_config-IsRunnable world command parsed {checked = config} known
      (keeps _ args parsed flags ∙ unfold default_config in refl) h1

-- Arguments that are accepted name a command and a ref, and for the command `publish` a repository
-- and a token, if package flag does not change the command.
pub parse_cli_config-IsRunnable :
    (world : World) (args : List Text) {config : CliConfig}
    → KeepsCommand world
    → parse_cli_config world args ≡ ok config
    → IsRunnable config
unfolding parse_cli_config
parse_cli_config-IsRunnable world args {config} keeps h =
    parse_command-IsRunnable world (drop_dashes args) {config = config} keeps h

-- A run changes something only for accepted arguments with the command `publish`, under a plan that
-- rests on what git, the commits and the changelog give and may be released; then it changes nothing
-- before it pushes the tag of the plan.
pub run_cli-safe :
    (world : World) (args : List Text)
    → All IsRead (run_cli world args []).1
      ⊎ ((config : CliConfig) × (parse_cli_config world args ≡ ok config)
          × (config.command ≡ codes "publish")
          × (plan : ReleasePlan) × IsPlanned
              (build_service world config)
              (request_of world config)
              plan
          × (reads : List Call) × (writes : List Call) × All IsRead reads
          × ((run_cli world args []).1 ≡ reads ++ pushed_tag plan.next_version ∷ writes))
unfolding run_cli
run_cli-safe world args = elim (Result-cases (parse_cli_config world args)) [
  | inr (inl (e, bad)) ↦ inl (rw bad tt)
  | inr (inr bad) ↦ inl (rw bad tt)
  | inl (config, good) ↦
      elim (run-safe (build_service world config) config.command (request_of world config)) [
        | inl reads ↦ inl (rw good reads)
        | inr (publishing, plan, rests, reads, writes, all, log) ↦
            inr (config, good, publishing, plan, rests, reads, writes, all, rw good log)
      ]
]
