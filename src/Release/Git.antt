-- ===== src/Release/Git.antt =====
-- scripts/ci_release/adapters/git_cli.go. What a run of git answers to its arguments is a parameter;
-- a function that changes the repository also gives the runs it made, in order.
pub mod Log
pub mod Tags
mod Tests
use devkit_go.Prelude.{
  ℕ, Bool, true, false, ◌||◌, List, [], ◌∷◌, ◌++◌, Option, none, some, ◌==◌, if◌then◌else◌, Result,
  ok, err, panic, ◌>>=◌,
}
use devkit_go.Prelude.Text.{Text, codes, text_eq, split, join, has_prefix, trim_space}
use devkit_go.Release.{Error, tag_already_exists, external}
use devkit_go.Release.Version.{SemanticVersion, parse_semantic_version, to_string}
use devkit_go.Release.Commit.{CommitDescriptor}
use devkit_go.Release.Candidate.{is_empty}

abbrev pub record_separator : ℕ
record_separator = 0x1e

abbrev pub field_separator : ℕ
field_separator = 0x1f

-- The error of a run: `in_context` if it is the end of the context, and its text.
pub record RunError : Type 0 where
  pub in_context : Bool
  pub text : Text

-- The arguments behind `-C path`, and the output.
abbrev pub Runner : Type 0
Runner = List Text → Result RunError Text

-- `runGit`
unfoldable pub run_git : Runner → List Text → Result RunError Text
run_git runner arguments = elim (runner arguments) [
  | ok output ↦ ok output
  | panic ↦ panic
  | err e ↦
      if e.in_context
      then err e
      else err (record {
        in_context = false;
        text = codes "git " ++ (join (codes " ") arguments ++ (codes ": " ++ e.text));
      })
]

-- An error that the caller only wraps.
abbrev pub wrapped {ℓ} : {A : Type ℓ} → Result RunError A → Result Error A
wrapped (ok a) = ok a
wrapped (err e) = err external
wrapped panic = panic

-- The loop of `LatestTag` over the lines.
unfoldable pub first_tag : List Text → Result Error (Option SemanticVersion)
first_tag [] = ok none
first_tag (line ∷ lines) =
    let rest = first_tag lines in
    let tag = trim_space line in
    if is_empty tag then rest else (do version ← parse_semantic_version tag; ok (some version))

unfoldable pub latest_tag : Runner → Result Error (Option SemanticVersion)
latest_tag runner = do
  output ← wrapped (
      run_git runner (
        codes "tag"
        ∷ codes "--merged"
        ∷ codes "HEAD"
        ∷ codes "--list"
        ∷ codes "v*"
        ∷ codes "--sort=-version:refname"
        ∷ []))
  first_tag (split b'\n' (trim_space output))

-- `strings.SplitN(s, sep, 3)` for a separator of one character: the text up to the first separator
-- and what is behind it, if there is one.
unfoldable pub cut : ℕ → Text → Text × Option Text
cut sep [] = ([], none)
cut sep (c ∷ s) =
    let (head, rest) = cut sep s in if c == sep then ([], some s) else (c ∷ head, rest)

abbrev pub cut_twice : Text × Option Text → Option (Text × Text × Text)
cut_twice (a, none) = none
cut_twice (a, some s) = elim (cut field_separator s).1 [
  | none ↦ none
  | some rest ↦ some (a, (cut field_separator s).0, rest)
]

-- One round of the loop of `parseCommitLog` on the trimmed record: the commit that it appends.
unfoldable pub parse_trimmed : Text → Option CommitDescriptor
parse_trimmed entry =
    if is_empty entry then none else elim (cut_twice (cut field_separator entry)) [
      | none ↦ none
      | some (sha, subject, body) ↦
          some
            (record { sha = trim_space sha; subject = trim_space subject; body = trim_space body })
    ]

unfoldable pub parse_record : Text → Option CommitDescriptor
parse_record entry = parse_trimmed (trim_space entry)

unfoldable pub parse_records : List Text → List CommitDescriptor
parse_records [] = []
parse_records (entry ∷ entries) =
    let rest = parse_records entries in
    elim (parse_record entry) [ none ↦ rest | some c ↦ c ∷ rest ]

unfoldable pub parse_commit_log : Text → List CommitDescriptor
parse_commit_log output = parse_records (split record_separator output)

abbrev pub log_range : Option SemanticVersion → Text
log_range none = codes "HEAD"
log_range (some base) = to_string base ++ codes "..HEAD"

unfoldable pub commits_since :
    Runner → Option SemanticVersion → Result Error (List CommitDescriptor)
commits_since runner base = do
  output ←
      wrapped
        (run_git runner (codes "log" ∷ codes "--format=%H%x1f%s%x1f%b%x1e" ∷ log_range base ∷ []))
  ok (parse_commit_log output)

unfoldable pub tag_exists : Runner → SemanticVersion → Result Error Bool
tag_exists runner version = do
  output ← wrapped (run_git runner (codes "tag" ∷ codes "--list" ∷ to_string version ∷ []))
  ok (text_eq (trim_space output) (to_string version))

-- `strings.Contains`
unfoldable pub contains : Text → Text → Bool
contains [] part = has_prefix [] part
contains (c ∷ s) part = has_prefix (c ∷ s) part || contains s part

abbrev pub tag_run : SemanticVersion → List Text
tag_run version = codes "tag" ∷ to_string version ∷ []

abbrev pub push_run : SemanticVersion → List Text
push_run version = codes "push" ∷ codes "origin" ∷ (codes "refs/tags/" ++ to_string version) ∷ []

-- Behind the run that creates the tag.
unfoldable pub push_tag :
    Runner → SemanticVersion → Result RunError Text → Result Error (Unit {0}) × List (List Text)
push_tag runner version (ok output) = (
  (wrapped (run_git runner (push_run version)) >>= λ pushed. ok tt),
  tag_run version ∷ push_run version ∷ [],
)
push_tag runner version (err e) = (
  (if contains e.text (codes "already exists") then err tag_already_exists else err external),
  tag_run version ∷ [],
)
push_tag runner version panic = (panic, tag_run version ∷ [])

unfoldable pub create_and_push_tag :
    Runner → SemanticVersion → Result Error (Unit {0}) × List (List Text)
create_and_push_tag runner version = push_tag runner version (run_git runner (tag_run version))
