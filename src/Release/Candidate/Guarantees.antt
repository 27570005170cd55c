-- ===== src/Release/Candidate/Guarantees.antt =====
-- scripts/ci_release/domain/release_candidate.go: what a candidate guarantees, and when one is refused.
use devkit_go.Prelude.{
  ◌≡◌, ◌↔◌, sym, ◌∙◌, ap, Bool, true, false, Option, none, some, arith, Result, ok,
}
use devkit_go.Prelude.Int.{pos}
use devkit_go.Prelude.Text.{Text, text_eq_iff, trim_space}
use devkit_go.Release.{Error}
use devkit_go.Release.Version.{SemanticVersion, compare, bootstrap_version}
use devkit_go.Release.Version.Order.{compare-zero, compare-cases}
use devkit_go.Release.Candidate.{
  ValidationGateStatus, ChangelogSection, ReleaseCandidate, allowed_release_branch, is_empty,
  is_unique, all_passed, check_next, new_release_candidate,
}

-- The gates pass exactly when all four did.
pub all_passed_iff :
    (v : ValidationGateStatus)
    → (all_passed v ≡ true)
      ↔ ((v.lint ≡ true) × (v.unit_gate ≡ true) × (v.integration ≡ true) × (v.vulncheck ≡ true))
unfolding all_passed
all_passed_iff v = ground arith

-- How the next version stands to the base.
abbrev pub Follows : Option SemanticVersion → SemanticVersion → Type 0
Follows none next = next ≡ bootstrap_version
Follows (some base) next = compare next base ≡ pos 1

pub record IsReleasable (branch : Text) (base : Option SemanticVersion) (next : SemanticVersion)
    (notes : ChangelogSection) (gates : ValidationGateStatus) (tag_exists : Bool) : Type 0 where
  pub on_main : branch ≡ allowed_release_branch
  pub gates_passed : all_passed gates ≡ true
  pub fresh_tag : tag_exists ≡ false
  pub notes_match : notes.version ≡ next
  pub notes_unique : notes.occurrences ≡ 1
  pub notes_some : is_empty (trim_space notes.body) ≡ false
  pub follows : Follows base next

abbrev is_none : Option SemanticVersion → Bool
is_none none = true
is_none (some v) = false

check_next-Follows :
    (base : Option SemanticVersion) (next : SemanticVersion) {b : Bool}
    → check_next base next ≡ ok b
    → Follows base next
unfolding check_next
check_next-Follows none next h = ground (arith, compare-zero next bootstrap_version)
check_next-Follows (some base) next h = ground (arith, compare-cases next base)

Follows-check_next :
    (base : Option SemanticVersion) (next : SemanticVersion)
    → Follows base next
    → check_next base next ≡ ok (is_none base)
unfolding check_next
Follows-check_next none next h = ground (arith, compare-zero next bootstrap_version)
Follows-check_next (some base) next h = ground arith

only : {a b : ReleaseCandidate} → ◌≡◌ {A = Result Error ReleaseCandidate} (ok a) (ok b) → a ≡ b
only h = cc

module _ (branch : Text) (base : Option SemanticVersion) (next : SemanticVersion)
    (notes : ChangelogSection) (gates : ValidationGateStatus) (tag_exists : Bool) where
  candidate-IsReleasable :
      {c : ReleaseCandidate}
      → new_release_candidate branch base next notes gates tag_exists ≡ ok c
      → IsReleasable branch base next notes gates tag_exists
  unfolding new_release_candidate is_unique
  candidate-IsReleasable {c} h = ground (
    arith,
    text_eq_iff branch allowed_release_branch,
    compare-zero notes.version next,
    check_next-Follows base next {b = true},
    check_next-Follows base next {b = false},
  )

  -- What is made of a releasable input.
  abbrev pub candidate : ReleaseCandidate
  candidate = record {
    branch = branch;
    base_version = base;
    next_version = next;
    notes = notes;
    gate_status = gates;
    target_tag_exists = tag_exists;
    bootstrap = is_none base;
  }

  IsReleasable-candidate :
      IsReleasable branch base next notes gates tag_exists
      → new_release_candidate branch base next notes gates tag_exists ≡ ok candidate
  unfolding new_release_candidate is_unique
  IsReleasable-candidate r = ground (
    arith,
    text_eq_iff branch allowed_release_branch,
    compare-zero notes.version next,
    Follows-check_next base next,
  )

-- A candidate is made exactly of what may be released: from main, with all gates passed, under a
-- tag that does not exist, with unique notes of that version, and as the bootstrap version without a
-- base, or greater than the base. It records what it was made of.
pub candidate_iff :
    (branch : Text) (base : Option SemanticVersion) (next : SemanticVersion)
    (notes : ChangelogSection) (gates : ValidationGateStatus) (tag_exists : Bool)
    (c : ReleaseCandidate)
    → (new_release_candidate branch base next notes gates tag_exists ≡ ok c) ↔ (
        IsReleasable branch base next notes gates tag_exists
        × (c ≡ candidate branch base next notes gates tag_exists))
candidate_iff branch base next notes gates tag_exists c = (
  (λ h.
      let r = candidate-IsReleasable branch base next notes gates tag_exists {c = c} h in
      (r, only (sym h ∙ IsReleasable-candidate branch base next notes gates tag_exists r))),
  (λ (r, e). IsReleasable-candidate branch base next notes gates tag_exists r ∙ ap ok (sym e)),
)
