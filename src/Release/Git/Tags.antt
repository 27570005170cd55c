-- ===== src/Release/Git/Tags.antt =====
-- `LatestTag` and `CreateAndPushTag` of scripts/ci_release/adapters/git_cli.go.
use devkit_go.Prelude.{
  ◌≡◌, ◌≢◌, ◌⊎◌, inl, inr, refl, ap, true, List, [], ◌∷◌, ◌++◌, some, arith, Bool-cases,
  Result-cases, All, Result, ok, err, panic,
}
use devkit_go.Prelude.Text.{Text, trim_space}
use devkit_go.Release.{Error}
use devkit_go.Release.Version.{SemanticVersion, parse_semantic_version, to_string}
use devkit_go.Release.Version.Print.{IsValid, to_string-parse}
use devkit_go.Release.Candidate.{is_empty}
use devkit_go.Release.Git.{
  Runner, RunError, run_git, first_tag, tag_run, push_run, push_tag, create_and_push_tag,
}

-- A line of white space.
abbrev pub IsBlank : Text → Type 0
IsBlank line = is_empty (trim_space line) ≡ true

-- The first line that is not blank is the print of a valid version, which is the tag that is found.
pub first_tag-some :
    (lines : List Text) {v : SemanticVersion}
    → first_tag lines ≡ ok (some v)
    → (blank : List Text) × (line : Text) × (rest : List Text) × (lines ≡ blank ++ line ∷ rest)
      × All IsBlank blank
      × (to_string v ≡ trim_space line)
      × IsValid v
unfolding first_tag
first_tag-some [] h = cc
first_tag-some (line ∷ lines) {v} h = elim (Bool-cases (is_empty (trim_space line))) [
  | inl b ↦
      let (blank, l, rest, e, all, p, valid) = first_tag-some lines {v = v} (ground arith) in
      (line ∷ blank, l, rest, ap (λ ls. line ∷ ls) e, (b, all), p, valid)
  | inr b ↦
      let parsed : parse_semantic_version (trim_space line) ≡ ok v =
        ground (arith, Result-cases (parse_semantic_version (trim_space line))) in
      let (p, valid) = to_string-parse (trim_space line) {v = v} parsed in
      ([], line, lines, refl, tt, p, valid)
]

-- What the two runs of git make of a tag.
abbrev pub IsPushed :
    Runner
    → SemanticVersion
    → Result RunError Text
    → Result Error (Unit {0}) × List (List Text)
    → Type 0
IsPushed runner version created (result, runs) =
    ((a : Text) × (b : Text) × (created ≡ ok a)
      × (run_git runner (push_run version) ≡ ok b)
      × (result ≡ ok tt)
      × (runs ≡ tag_run version ∷ push_run version ∷ []))
    ⊎ ((a : Text) × (created ≡ ok a)
        × (result ≢ ok tt)
        × (runs ≡ tag_run version ∷ push_run version ∷ []))
    ⊎ ((result ≢ ok tt) × (runs ≡ tag_run version ∷ []))

push_tag-IsPushed :
    (runner : Runner) (version : SemanticVersion) (created : Result RunError Text)
    → IsPushed runner version created (push_tag runner version created)
unfolding push_tag
push_tag-IsPushed runner version (ok a) = elim (Result-cases (run_git runner (push_run version))) [
  | inl (b, e) ↦ inl (a, b, refl, e, rw e, refl)
  | inr (inl (x, e)) ↦ inr (inl (a, refl, rw e (λ h. cc), refl))
  | inr (inr e) ↦ inr (inl (a, refl, rw e (λ h. cc), refl))
]
push_tag-IsPushed runner version (err e) = inr (inr (ground arith, refl))
push_tag-IsPushed runner version panic = inr (inr ((λ h. cc), refl))

-- A tag is pushed only after git created it, and the call succeeds exactly if both runs do.
pub create_and_push_tag-IsPushed :
    (runner : Runner) (version : SemanticVersion)
    → IsPushed runner version
        (run_git runner (tag_run version))
        (create_and_push_tag runner version)
unfolding create_and_push_tag
create_and_push_tag-IsPushed runner version =
    push_tag-IsPushed runner version (run_git runner (tag_run version))
