-- ===== src/Release/Version/Print.antt =====
-- `String` and `ParseSemanticVersion` of scripts/ci_release/domain/semantic_version.go.
use devkit_go.Prelude.{
  ℕ, ◌^◌, ◌<◌, ◌≡◌, refl, sym, ◌∙◌, ap, true, List, [], ◌∷◌, ◌++◌, arith, some, Option-cases, inl,
  inr, ok,
}
use devkit_go.Prelude.Int.{ℤ, pos}
use devkit_go.Prelude.Text.{Text, split, split_lacking, split-append, join, join-split, Lacks}
use devkit_go.Prelude.Decimal.{format_int, format_nat, parse_int}
use devkit_go.Prelude.Decimal.RoundTrip.{
  is_canonical, parse_int-format_nat, parse_int_canonical, format_int-Lacks, format_nat-canonical,
}
use devkit_go.Release.Version.{
  SemanticVersion, match_numbers, match_version, parse_semantic_version, to_string,
}

-- The numbers of a parsed version are natural and fit an int64.
abbrev pub IsNatural : ℤ → Type 0
IsNatural a = (n : ℕ) × (a ≡ pos n) × (n < 2 ^ 63)

pub record IsValid (v : SemanticVersion) : Type 0 where
  pub major_natural : IsNatural v.major_number
  pub minor_natural : IsNatural v.minor_number
  pub patch_natural : IsNatural v.patch_number

abbrev natural : ℕ → ℕ → ℕ → SemanticVersion
natural a b c = record { major_number = pos a; minor_number = pos b; patch_number = pos c }

format_nat-Lacks : (n : ℕ) → Lacks b'.' (format_nat n)
unfolding format_int
format_nat-Lacks n = format_int-Lacks b'.' (pos n) refl (ground arith)

match-to_string :
    (a b c : ℕ)
    → match_version (to_string (natural a b c)) ≡ some (format_nat a, format_nat b, format_nat c)
unfolding match_version to_string format_int
match-to_string a b c =
    let tail = format_nat b ++ b'.' ∷ format_nat c in
    let parts : split b'.' (format_nat a ++ b'.' ∷ tail)
        ≡ format_nat a ∷ format_nat b ∷ format_nat c ∷ [] =
      split-append b'.' (format_nat a) tail (format_nat-Lacks a)
      ∙ ap (λ ps. format_nat a ∷ ps)
          (split-append b'.' (format_nat b) (format_nat c) (format_nat-Lacks b)
            ∙ ap (λ ps. format_nat b ∷ ps)
                (split_lacking b'.' (format_nat c) (format_nat-Lacks c))) in
    ground (arith, parts, format_nat-canonical a, format_nat-canonical b, format_nat-canonical c)

parse-natural :
    (a b c : ℕ)
    → a < 2 ^ 63
    → b < 2 ^ 63
    → c < 2 ^ 63
    → parse_semantic_version (to_string (natural a b c)) ≡ ok (natural a b c)
unfolding parse_semantic_version
parse-natural a b c h k l = ground (
  arith,
  match-to_string a b c,
  parse_int-format_nat a h,
  parse_int-format_nat b k,
  parse_int-format_nat c l,
)

-- The print of a valid version is parsed to that version.
pub parse-to_string :
    (v : SemanticVersion) → IsValid v → parse_semantic_version (to_string v) ≡ ok v
parse-to_string v valid =
    let (a, ea, la) = valid.major_natural in
    let (b, eb, lb) = valid.minor_natural in
    let (c, ec, lc) = valid.patch_natural in
    let e : v ≡ natural a b c = ground arith in rw e (parse-natural a b c la lb lc)

-- The texts that the pattern accepts.
match_numbers-parts :
    (ps : List Text) {a b c : Text}
    → match_numbers ps ≡ some (a, b, c)
    → (ps ≡ a ∷ b ∷ c ∷ [])
      × (is_canonical a ≡ true)
      × (is_canonical b ≡ true)
      × (is_canonical c ≡ true)
unfolding match_numbers
match_numbers-parts [] h = cc
match_numbers-parts (a ∷ []) h = cc
match_numbers-parts (a ∷ b ∷ []) h = cc
match_numbers-parts (a ∷ b ∷ c ∷ []) h = ground arith
match_numbers-parts (a ∷ b ∷ c ∷ d ∷ r) h = cc

match_version-parts :
    (raw : Text) {a b c : Text}
    → match_version raw ≡ some (a, b, c)
    → (raw ≡ b'v' ∷ (a ++ b'.' ∷ (b ++ b'.' ∷ c)))
      × (is_canonical a ≡ true)
      × (is_canonical b ≡ true)
      × (is_canonical c ≡ true)
unfolding match_version
match_version-parts [] h = cc
match_version-parts (x ∷ s) {a} {b} {c} h =
    let first : x ≡ b'v' = ground arith in
    let (e, ka, kb, kc) =
      match_numbers-parts (split b'.' s) {a = a} {b = b} {c = c} (ground arith) in
    let whole : s ≡ a ++ b'.' ∷ (b ++ b'.' ∷ c) =
      sym (join-split b'.' s) ∙ ap (join (b'.' ∷ [])) e ∙ (unfold join in refl) in
    (rw (first, ← whole), ka, kb, kc)

-- Every text that is accepted is the print of its version, and the version is valid.
pub to_string-parse :
    (raw : Text) {v : SemanticVersion}
    → parse_semantic_version raw ≡ ok v
    → (to_string v ≡ raw) × IsValid v
unfolding parse_semantic_version
to_string-parse raw {v} h = elim (Option-cases (match_version raw)) [
  | inl bad ↦ absurd (ground arith)
  | inr ((a, b, c), good) ↦
      let (whole, ka, kb, kc) = match_version-parts raw {a = a} {b = b} {c = c} good in
      let pa : parse_int a ≡ some v.major_number = ground arith in
      let pb : parse_int b ≡ some v.minor_number = ground arith in
      let pc : parse_int c ≡ some v.patch_number = ground arith in
      let (x, ex, lx, sx) = parse_int_canonical a ka pa in
      let (y, ey, ly, sy) = parse_int_canonical b kb pb in
      let (z, ez, lz, sz) = parse_int_canonical c kc pc in
      (
        unfold to_string in rw (sx, sy, sz, whole),
        record {
          major_natural = (x, ex, lx);
          minor_natural = (y, ey, ly);
          patch_natural = (z, ez, lz);
        },
      )
]
