-- ===== src/Release/Commit.antt =====
-- scripts/ci_release/domain/conventional_commit.go.
pub mod Pattern
pub mod Resolve
use devkit_go.Prelude.{
  ℕ, ◌≡◌, Bool, true, false, ◌&&◌, ◌||◌, List, [], ◌∷◌, ◌++◌, Option, none, some, leb, ltb, ◌==◌,
  if◌then◌else◌, Result, ok, err, panic, ◌>>=◌,
}
use devkit_go.Prelude.Text.{Text, codes, text_eq, text_mem, split, has_prefix, trim_space}
use devkit_go.Release.{
  Error, invalid_conventional_commit, unsupported_commit_type, no_version_increment,
}
use devkit_go.Release.Version.{
  VersionIncrement, major, minor, patch, unknown, SemanticVersion, bootstrap_version, bump,
}

pub record ConventionalCommit : Type 0 where
  pub commit_type : Text
  pub scope : Text
  pub description : Text
  pub breaking : Bool

pub record CommitDescriptor : Type 0 where
  pub sha : Text
  pub subject : Text
  pub body : Text

-- The groups of `^([a-z]+)(\(([^)]+)\))?(!)?: (.+)$`.
pub record Groups : Type 0 where
  pub kind : Text  -- 1
  pub scope : Text  -- 3, empty if there is none
  pub bang : Bool  -- 4
  pub description : Text  -- 5

abbrev pub is_lower : ℕ → Bool
is_lower c = leb b'a' c && leb c b'z'

-- The longest prefix of characters that pass, and the rest.
unfoldable pub span : (ℕ → Bool) → Text → Text × Text
span p [] = ([], [])
span p (c ∷ s) = let (taken, rest) = span p s in if p c then (c ∷ taken, rest) else ([], c ∷ s)

abbrev pub no_newline : Text → Bool
no_newline [] = true
no_newline (c ∷ s) = if c == b'\n' then false else no_newline s

-- `(.+)$`: a dot matches all but a newline.
abbrev pub match_description : Text → Text → Bool → Text → Option Groups
match_description kind scope bang [] = none
match_description kind scope bang (c ∷ s) =
    if no_newline (c ∷ s)
    then some (record { kind = kind; scope = scope; bang = bang; description = c ∷ s })
    else none

-- `: (.+)$`
abbrev pub match_colon : Text → Text → Bool → Text → Option Groups
match_colon kind scope bang (c ∷ d ∷ s) =
    if c == b':' && d == b' ' then match_description kind scope bang s else none
match_colon _ _ _ _ = none

-- `(!)?: (.+)$`
unfoldable pub match_bang : Text → Text → Text → Option Groups
match_bang kind scope [] = none
match_bang kind scope (c ∷ s) =
    if c == b'!' then match_colon kind scope true s else match_colon kind scope false (c ∷ s)

-- Behind `(`: `([^)]+)\)` and the rest.
unfoldable pub match_scope : Text → Text × Text → Option Groups
unfolding match_bang
match_scope kind ([], rest) = none
match_scope kind (c ∷ scope, []) = none
match_scope kind (c ∷ scope, d ∷ rest) = match_bang kind (c ∷ scope) rest

-- Behind the type.
unfoldable pub match_tail : Text × Text → Option Groups
unfolding match_scope
match_tail ([], rest) = none
match_tail (k ∷ kind, []) = none
match_tail (k ∷ kind, c ∷ rest) =
    if c == b'('
    then match_scope (k ∷ kind) (span (λ d. if d == b')' then false else true) rest)
    else match_bang (k ∷ kind) [] (c ∷ rest)

unfoldable pub match_subject : Text → Option Groups
unfolding match_tail span
match_subject s = match_tail (span is_lower s)

abbrev pub breaking_change : Text
breaking_change = codes "BREAKING CHANGE:"

unfoldable pub any_breaking : List Text → Bool
any_breaking [] = false
any_breaking (line ∷ lines) = has_prefix (trim_space line) breaking_change || any_breaking lines

unfoldable pub has_breaking_footer : Text → Bool
unfolding any_breaking
has_breaking_footer body = any_breaking (split b'\n' body)

abbrev pub supported_commit_types : List Text
supported_commit_types =
    codes "feat"
    ∷ codes "fix"
    ∷ codes "perf"
    ∷ codes "refactor"
    ∷ codes "docs"
    ∷ codes "build"
    ∷ codes "ci"
    ∷ codes "chore"
    ∷ codes "test"
    ∷ []

unfoldable pub is_supported_commit_type : Text → Bool
is_supported_commit_type t = text_mem t supported_commit_types

unfoldable pub parse_conventional_commit : Text → Text → Result Error ConventionalCommit
parse_conventional_commit subject body = elim (match_subject subject) [
  | none ↦ err invalid_conventional_commit
  | some g ↦
      if is_supported_commit_type g.kind
      then ok (record {
        commit_type = g.kind;
        scope = g.scope;
        description = g.description;
        breaking = g.bang || has_breaking_footer body;
      })
      else err unsupported_commit_type
]

-- `Increment`, with its second result.
unfoldable pub increment : ConventionalCommit → VersionIncrement × Bool
increment c =
    if c.breaking
    then (major, true)
    else if text_eq c.commit_type (codes "feat")
    then (minor, true)
    else if text_mem c.commit_type (codes "fix" ∷ codes "perf" ∷ codes "refactor" ∷ [])
    then (patch, true)
    else (unknown, false)

unfoldable pub classify : CommitDescriptor → Result Error ConventionalCommit
classify c = parse_conventional_commit c.subject c.body

unfoldable pub rank_increment : VersionIncrement → ℕ
rank_increment major = 3
rank_increment minor = 2
rank_increment patch = 1
rank_increment unknown = 0

-- One round of the loop on `highest` and `selected`.
abbrev pub select : ℕ × VersionIncrement → VersionIncrement × Bool → ℕ × VersionIncrement
select (highest, selected) (inc, counts) =
    if counts && ltb highest (rank_increment inc)
    then (rank_increment inc, inc)
    else (highest, selected)

unfoldable pub scan_commits :
    ℕ × VersionIncrement → List CommitDescriptor → Result Error (ℕ × VersionIncrement)
scan_commits state [] = ok state
scan_commits state (c ∷ commits) = elim (classify c) [
  | err e ↦ err e
  | panic ↦ panic
  | ok classified ↦ scan_commits (select state (increment classified)) commits
]

-- `if selected == "" { … }; return base.Bump(selected)`
unfoldable pub bump_selected : SemanticVersion → VersionIncrement → Result Error SemanticVersion
bump_selected base unknown = err no_version_increment
bump_selected base major = bump base major
bump_selected base minor = bump base minor
bump_selected base patch = bump base patch

unfoldable pub resolve_next_version :
    Option SemanticVersion → List CommitDescriptor → Result Error SemanticVersion
resolve_next_version none commits = ok bootstrap_version
resolve_next_version (some base) commits = do
  state ← scan_commits (rank_increment unknown, unknown) commits
  bump_selected base state.1
