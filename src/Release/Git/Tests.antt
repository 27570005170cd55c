-- ===== src/Release/Git/Tests.antt =====
-- The theorems on git at a concrete log and at concrete answers.
use devkit_go.Prelude.{
  ◌≡◌, ◌≢◌, refl, Bool, true, false, List, [], ◌∷◌, ◌++◌, Option, none, some, arith, All, Result,
  ok, err,
}
use devkit_go.Prelude.Int.{pos}
use devkit_go.Prelude.Text.{Text, codes, trim_space}
use devkit_go.Release.Version.{SemanticVersion, to_string}
use devkit_go.Release.Commit.{CommitDescriptor}
use devkit_go.Release.Git.{Runner, first_tag, parse_commit_log}
use devkit_go.Release.Git.Log.{IsLoggable, print_log, parse-print_log}

abbrev fix : CommitDescriptor
fix = record { sha = codes "a1"; subject = codes "fix: leak"; body = [] }

abbrev feature : CommitDescriptor
feature = record {
  sha = codes "b2";
  subject = codes "feat!: pool";
  body = codes "BREAKING CHANGE: new names";
}

fix-IsLoggable : IsLoggable fix
unfolding devkit_go.Prelude.Text.trim_left devkit_go.Prelude.Text.trim_right
fix-IsLoggable = record {
  sha_some = λ h. ground arith;
  sha_lacks = ground arith;
  subject_lacks = ground arith;
  body_lacks = tt;
  sha_trimmed = (refl, refl);
  subject_trimmed = (refl, refl);
  body_trimmed = (refl, refl);
}

feature-IsLoggable : IsLoggable feature
unfolding devkit_go.Prelude.Text.trim_left devkit_go.Prelude.Text.trim_right
feature-IsLoggable = record {
  sha_some = λ h. ground arith;
  sha_lacks = ground arith;
  subject_lacks = ground arith;
  body_lacks = ground arith;
  sha_trimmed = (refl, refl);
  subject_trimmed = (refl, refl);
  body_trimmed = (refl, refl);
}

parse-print_log_example : parse_commit_log (print_log (fix ∷ feature ∷ [])) ≡ fix ∷ feature ∷ []
parse-print_log_example =
    parse-print_log (fix ∷ feature ∷ []) (fix-IsLoggable, (feature-IsLoggable, tt))

abbrev v123 : SemanticVersion
v123 = record { major_number = pos 1; minor_number = pos 2; patch_number = pos 3 }

abbrev tags : List Text
tags = codes " " ∷ codes "v1.2.3" ∷ codes "v1.2.0" ∷ []

newest : first_tag tags ≡ ok (some v123)
unfolding first_tag trim_space devkit_go.Release.Version.parse_semantic_version
    devkit_go.Release.Version.match_version devkit_go.Prelude.Text.split
    devkit_go.Prelude.Decimal.parse_int
newest = refl

-- A repository in which every push fails.
abbrev offline : Runner
offline (run ∷ rest ∷ []) = ok []
offline _ = err (record { in_context = false; text = codes "no route" })
