-- ===== src/Release/Commit/Resolve.antt =====
-- `ResolveNextVersion` of scripts/ci_release/domain/conventional_commit.go, against the strongest change.
use devkit_go.Prelude.{
  ℕ, ◌^◌, ◌-◌, ◌≡◌, ◌≢◌, refl, sym, ◌∙◌, ap, Bool, false, ◌||◌, List, [], ◌∷◌, arith, some, inl,
  inr, Result-cases, ltb, if◌then◌else◌, Result, ok, err, panic, ◌>>=◌, ok_chain,
}
use devkit_go.Prelude.Int.{pos}
use devkit_go.Prelude.Text.{codes, text_eq, text_mem}
use devkit_go.Release.{Error}
use devkit_go.Release.Version.{
  VersionIncrement, major, minor, patch, unknown, SemanticVersion, compare,
}
use devkit_go.Release.Version.Print.{IsValid}
use devkit_go.Release.Version.Order.{raised, bump-greater}
use devkit_go.Release.Commit.{
  ConventionalCommit, CommitDescriptor, classify, increment, rank_increment, select, scan_commits,
  bump_selected, resolve_next_version,
}

-- All commits, or the error of the first that is no conventional commit.
pub classify_all : List CommitDescriptor → Result Error (List ConventionalCommit)
classify_all [] = ok []
classify_all (c ∷ cs) = do x ← classify c; xs ← classify_all cs; ok (x ∷ xs)

abbrev pub any : (ConventionalCommit → Bool) → List ConventionalCommit → Bool
any p [] = false
any p (c ∷ cs) = p c || any p cs

abbrev pub is_feature : ConventionalCommit → Bool
is_feature c = text_eq c.commit_type (codes "feat")

abbrev pub is_repair : ConventionalCommit → Bool
is_repair c = text_mem c.commit_type (codes "fix" ∷ codes "perf" ∷ codes "refactor" ∷ [])

-- The strongest change: a breaking one, else a feature, else a repair, else none.
abbrev pub strongest : List ConventionalCommit → VersionIncrement
strongest cs =
    if any (λ c. c.breaking) cs
    then major
    else if any is_feature cs
    then minor
    else if any is_repair cs
    then patch
    else unknown

-- The stronger of two.
stronger : VersionIncrement → VersionIncrement → VersionIncrement
stronger a b = if ltb (rank_increment a) (rank_increment b) then b else a

strongest-cons :
    (c : ConventionalCommit) (cs : List ConventionalCommit)
    → strongest (c ∷ cs) ≡ stronger (increment c).0 (strongest cs)
unfolding stronger rank_increment increment
strongest-cons c cs = ground arith

stronger_unknown : (a : VersionIncrement) → stronger unknown a ≡ a
unfolding stronger rank_increment
stronger_unknown a = ground arith

stronger_assoc : (a b c : VersionIncrement) → stronger (stronger a b) c ≡ stronger a (stronger b c)
unfolding stronger rank_increment
stronger_assoc a b c = ground arith

select-stronger :
    (s : VersionIncrement) (c : ConventionalCommit)
    → let s' = stronger s (increment c).0 in
      select (rank_increment s, s) (increment c) ≡ (rank_increment s', s')
unfolding stronger rank_increment increment
select-stronger s c = ground arith

-- The state of the loop when the strongest change so far is `s`.
abbrev with_rank : VersionIncrement → ℕ × VersionIncrement
with_rank s = (rank_increment s, s)

-- The state after the loop.
after :
    VersionIncrement → Result Error (List ConventionalCommit) → Result Error (ℕ × VersionIncrement)
after s r = r >>= λ cs. ok (with_rank (stronger s (strongest cs)))

prepend :
    ConventionalCommit
    → Result Error (List ConventionalCommit)
    → Result Error (List ConventionalCommit)
prepend x r = r >>= λ xs. ok (x ∷ xs)

after-prepend :
    (s : VersionIncrement) (x : ConventionalCommit) (r : Result Error (List ConventionalCommit))
    → after (stronger s (increment x).0) r ≡ after s (prepend x r)
unfolding after prepend
after-prepend s x (ok xs) =
    ap (λ v. ok (with_rank v))
      (stronger_assoc s (increment x).0 (strongest xs)
        ∙ ap (stronger s) (sym (strongest-cons x xs)))
after-prepend s x (err e) = refl
after-prepend s x panic = refl

scan-ok :
    (state : ℕ × VersionIncrement) (c : CommitDescriptor) (commits : List CommitDescriptor)
    {x : ConventionalCommit}
    → classify c ≡ ok x
    → (scan_commits state (c ∷ commits) ≡ scan_commits (select state (increment x)) commits)
      × (classify_all (c ∷ commits) ≡ prepend x (classify_all commits))
unfolding scan_commits classify_all prepend
scan-ok state c commits e = (rw (e, scan_commits), rw (e, classify_all))

scan-stronger :
    (s : VersionIncrement) (commits : List CommitDescriptor)
    → scan_commits (with_rank s) commits ≡ after s (classify_all commits)
unfolding scan_commits classify_all
scan-stronger s [] = unfold after stronger rank_increment in ground arith
scan-stronger s (c ∷ commits) = elim (Result-cases (classify c)) [
  | inl (x, e) ↦
      let (now, all) = scan-ok (with_rank s) c commits {x = x} e in
      now
      ∙ ap (λ state. scan_commits state commits) (select-stronger s x)
      ∙ scan-stronger (stronger s (increment x).0) commits
      ∙ after-prepend s x (classify_all commits)
      ∙ ap (after s) (sym all)
  | inr (inl (x, e)) ↦ unfold after in rw (e, scan_commits)
  | inr (inr e) ↦ unfold after in rw (e, scan_commits)
]

-- The end of the function, on the state of the loop.
bump_state : SemanticVersion → Result Error (ℕ × VersionIncrement) → Result Error SemanticVersion
bump_state base r = r >>= λ state. bump_selected base state.1

bump_state-after :
    (base : SemanticVersion) (r : Result Error (List ConventionalCommit))
    → bump_state base (after unknown r) ≡ (r >>= λ cs. bump_selected base (strongest cs))
unfolding bump_state after
bump_state-after base (ok cs) = ap (bump_selected base) (stronger_unknown (strongest cs))
bump_state-after base (err e) = refl
bump_state-after base panic = refl

-- With a base, the result is the base bumped by the strongest change, no increment if there is none, or the error
-- of the first commit that is not conventional.
pub resolve-strongest :
    (base : SemanticVersion) (commits : List CommitDescriptor)
    → resolve_next_version (some base) commits
      ≡ (classify_all commits >>= λ cs. bump_selected base (strongest cs))
unfolding resolve_next_version
resolve-strongest base commits =
    unfold bump_state in
    ap (bump_state base) (scan-stronger unknown commits)
    ∙ bump_state-after base (classify_all commits)

selected-greater :
    (base : SemanticVersion) (i : VersionIncrement) {w : SemanticVersion}
    → IsValid base
    → raised i base ≢ pos (2 ^ 63 - 1)
    → bump_selected base i ≡ ok w
    → IsValid w × (compare w base ≡ pos 1)
unfolding bump_selected
selected-greater base major v k h = bump-greater base major v k h
selected-greater base minor v k h = bump-greater base minor v k h
selected-greater base patch v k h = bump-greater base patch v k h
selected-greater base unknown v k h = cc

-- The next version is valid and greater than a valid base of which no number is the greatest int64.
pub resolve-greater :
    (base : SemanticVersion) (commits : List CommitDescriptor) {w : SemanticVersion}
    → IsValid base
    → ((i : VersionIncrement) → raised i base ≢ pos (2 ^ 63 - 1))
    → resolve_next_version (some base) commits ≡ ok w
    → IsValid w × (compare w base ≡ pos 1)
resolve-greater base commits {w} valid k h =
    let (cs, _, e) =
      ok_chain (classify_all commits) (λ cs. bump_selected base (strongest cs))
        (sym (resolve-strongest base commits) ∙ h) in
    selected-greater base (strongest cs) {w = w} valid (k (strongest cs)) e
