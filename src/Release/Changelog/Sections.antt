-- ===== src/Release/Changelog/Sections.antt =====
-- `ReadVersionSection` of scripts/ci_release/adapters/changelog_reader.go: which section is read.
use devkit_go.Prelude.{
  ℕ, ◌≡◌, ◌⊎◌, inl, inr, refl, sym, ◌∙◌, ap, true, false, List, [], ◌∷◌, ◌++◌, map, append_assoc,
  append-nil, none, some, arith, if◌then◌else◌, All, ok, err,
}
use devkit_go.Prelude.Text.{Text, codes, text_eq, text_eq_refl, split, join, trim_space}
use devkit_go.Release.{missing_changelog_section, ambiguous_changelog_section}
use devkit_go.Release.Version.{SemanticVersion, to_string}
use devkit_go.Release.Candidate.{heading_of, new_changelog_section, is_empty}
use devkit_go.Release.Changelog.{
  trim_cr, match_heading, Reading, open_section, scan_lines, start, read_version_section,
}

module _ (version : SemanticVersion) where
  -- A line that opens the section of the version.
  abbrev pub IsOwn : Text → Type 0
  IsOwn line = match_heading (trim_cr line) ≡ some (to_string version)

  -- A line that opens the section of another version.
  abbrev pub IsForeign : Text → Type 0
  IsForeign line =
      (t : Text) × (match_heading (trim_cr line) ≡ some t) × (text_eq t (to_string version) ≡ false)

  -- A line that opens no section.
  abbrev pub IsPlain : Text → Type 0
  IsPlain line = match_heading (trim_cr line) ≡ none

  -- The end of the section: no line, or the heading of another version and whatever follows it.
  abbrev pub EndsSection : List Text → Type 0
  EndsSection [] = Unit
  EndsSection (line ∷ lines) = IsForeign line

  scan-skip :
      (lines rest : List Text)
      → All (λ l. IsPlain l ⊎ IsForeign l) lines
      → scan_lines version start (lines ++ rest) ≡ scan_lines version start rest
  unfolding scan_lines
  scan-skip [] rest h = refl
  scan-skip (l ∷ lines) rest (inl p, h) = rw (p, scan_lines) (scan-skip lines rest h)
  scan-skip (l ∷ lines) rest (inr (t, p, q), h) = rw (p, scan_lines, q) (scan-skip lines rest h)

  scan-own :
      (line : Text) (rest : List Text) (r : Reading)
      → IsOwn line
      → scan_lines version r (line ∷ rest) ≡ scan_lines version (open_section version r) rest
  unfolding scan_lines
  scan-own line rest r h = rw (h, scan_lines, text_eq_refl (to_string version))

  reading : ℕ → List Text → Reading
  reading n lines = record {
    occurrences = n;
    found_heading = heading_of version;
    body_lines = lines;
    capturing = true;
  }

  open-start : open_section version start ≡ reading 1 []
  unfolding reading
  open-start = refl

  open-again : (kept : List Text) → open_section version (reading 1 kept) ≡ reading 2 kept
  unfolding reading
  open-again kept = refl

  scan-body :
      (n : ℕ) (kept lines rest : List Text)
      → All IsPlain lines
      → scan_lines version (reading n kept) (lines ++ rest)
        ≡ scan_lines version (reading n (kept ++ map trim_cr lines)) rest
  unfolding scan_lines reading
  scan-body n kept [] rest h = rw (append-nil kept)
  scan-body n kept (l ∷ lines) rest (p, h) =
      rw (p, scan_lines)
        (scan-body n (kept ++ trim_cr l ∷ []) lines rest h
          ∙ ap (λ ls. scan_lines version (reading n ls) rest)
              (append_assoc kept (trim_cr l ∷ []) (map trim_cr lines)))

  scan-end :
      (n : ℕ) (kept rest : List Text)
      → EndsSection rest
      → scan_lines version (reading n kept) rest ≡ reading n kept
  unfolding scan_lines reading
  scan-end n kept [] h = refl
  scan-end n kept (l ∷ rest) (t, p, q) = rw (p, scan_lines, q)

  scan-none :
      (lines : List Text)
      → All (λ l. IsPlain l ⊎ IsForeign l) lines
      → scan_lines version start lines ≡ start
  unfolding scan_lines
  scan-none lines h = ap (scan_lines version start) (sym (append-nil lines)) ∙ scan-skip lines [] h

  -- The section of the version in the lines of a file.
  section :
      (before : List Text) (heading : Text) (body rest : List Text)
      → All (λ l. IsPlain l ⊎ IsForeign l) before
      → IsOwn heading
      → All IsPlain body
      → EndsSection rest
      → scan_lines version start (before ++ heading ∷ (body ++ rest)) ≡ reading 1 (map trim_cr body)
  section before heading body rest b o p e =
      scan-skip before (heading ∷ (body ++ rest)) b
      ∙ scan-own heading (body ++ rest) start o
      ∙ ap (λ r. scan_lines version r (body ++ rest)) open-start
      ∙ scan-body 1 [] body rest p
      ∙ scan-end 1 (map trim_cr body) rest e

  -- Two sections of the version, one behind the other.
  twice :
      (before : List Text) (heading : Text) (body : List Text) (again : Text)
      (more rest : List Text)
      → All (λ l. IsPlain l ⊎ IsForeign l) before
      → IsOwn heading
      → All IsPlain body
      → IsOwn again
      → All IsPlain more
      → EndsSection rest
      → scan_lines version start (before ++ heading ∷ (body ++ again ∷ (more ++ rest)))
        ≡ reading 2 (map trim_cr body ++ map trim_cr more)
  twice before heading body again more rest b o p o' p' e =
      scan-skip before (heading ∷ (body ++ again ∷ (more ++ rest))) b
      ∙ scan-own heading (body ++ again ∷ (more ++ rest)) start o
      ∙ ap (λ r. scan_lines version r (body ++ again ∷ (more ++ rest))) open-start
      ∙ scan-body 1 [] body (again ∷ (more ++ rest)) p
      ∙ scan-own again (more ++ rest) (reading 1 (map trim_cr body)) o'
      ∙ ap (λ r. scan_lines version r (more ++ rest)) (open-again (map trim_cr body))
      ∙ scan-body 2 (map trim_cr body) more rest p'
      ∙ scan-end 2 (map trim_cr body ++ map trim_cr more) rest e

one_section :
    (version : SemanticVersion) (lines : List Text)
    → let r = reading version 1 lines in
      new_changelog_section version r.found_heading (join (codes "\n") r.body_lines) r.occurrences
      ≡ (let text = trim_space (join (codes "\n") lines) in
          if is_empty text
          then err missing_changelog_section
          else ok (record {
            version = version;
            heading_line = heading_of version;
            body = text;
            occurrences = 1;
          }))
unfolding reading new_changelog_section
one_section version lines = ground (arith, text_eq_refl (heading_of version))

two_sections :
    (version : SemanticVersion) (lines : List Text)
    → let r = reading version 2 lines in
      new_changelog_section version r.found_heading (join (codes "\n") r.body_lines) r.occurrences
      ≡ err ambiguous_changelog_section
unfolding reading new_changelog_section
two_sections version lines = refl

no_section :
    (version : SemanticVersion)
    → new_changelog_section version [] (join (codes "\n") []) 0 ≡ err missing_changelog_section
unfolding new_changelog_section
no_section version = refl

-- The section of a version is the lines between its heading and the next heading of another version,
-- whatever follows that heading: the trimmed body if there is one, and a missing section if it is
-- blank.
pub read_section :
    (version : SemanticVersion) (content : Text) (before : List Text) (heading : Text)
    (body rest : List Text)
    → split b'\n' content ≡ before ++ heading ∷ (body ++ rest)
    → All (λ l. IsPlain version l ⊎ IsForeign version l) before
    → IsOwn version heading
    → All (IsPlain version) body
    → EndsSection version rest
    → read_version_section content version ≡ (
        let text = trim_space (join (codes "\n") (map trim_cr body)) in
        if is_empty text
        then err missing_changelog_section
        else ok (record {
          version = version;
          heading_line = heading_of version;
          body = text;
          occurrences = 1;
        }))
unfolding read_version_section
read_section version content before heading body rest e b o p f =
    rw (e, section version before heading body rest b o p f)
      (one_section version (map trim_cr body))

-- Two sections of a version with no heading of another version between them are refused.
pub read-duplicate :
    (version : SemanticVersion) (content : Text) (before : List Text) (heading : Text)
    (body : List Text) (again : Text) (more rest : List Text)
    → split b'\n' content ≡ before ++ heading ∷ (body ++ again ∷ (more ++ rest))
    → All (λ l. IsPlain version l ⊎ IsForeign version l) before
    → IsOwn version heading
    → All (IsPlain version) body
    → IsOwn version again
    → All (IsPlain version) more
    → EndsSection version rest
    → read_version_section content version ≡ err ambiguous_changelog_section
unfolding read_version_section
read-duplicate version content before heading body again more rest e b o p o' p' f =
    rw (e, twice version before heading body again more rest b o p o' p' f)
      (two_sections version (map trim_cr body ++ map trim_cr more))

-- A changelog without a heading of the version has no section of it.
pub read-missing :
    (version : SemanticVersion) (content : Text)
    → All (λ l. IsPlain version l ⊎ IsForeign version l) (split b'\n' content)
    → read_version_section content version ≡ err missing_changelog_section
unfolding read_version_section
read-missing version content h = rw (scan-none version (split b'\n' content) h) (no_section version)
