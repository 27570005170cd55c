-- ===== src/Release/Git/Log.antt =====
-- `parseCommitLog` of scripts/ci_release/adapters/git_cli.go, against the log that git prints.
use devkit_go.Prelude.{
  append-nil, ℕ, ◌≡◌, ◌≢◌, refl, sym, ◌∙◌, ap, false, List, [], ◌∷◌, ◌++◌, append_assoc, some,
  arith, All, All-append, length, Bool-cases, inl, inr, ◌≤◌,
}
use devkit_go.Prelude.Text.{
  Text, Lacks, split, split-append, is_space, trim_left, trim_right, trim_space,
}
use devkit_go.Release.Commit.{CommitDescriptor}
use devkit_go.Release.Candidate.{is_empty}
use devkit_go.Release.Git.{
  record_separator, field_separator, cut, parse_trimmed, parse_record, parse_records,
  parse_commit_log,
}

-- No white space at either end.
abbrev pub IsTrimmed : Text → Type 0
IsTrimmed t = (trim_left t ≡ t) × (trim_right t ≡ t)

-- A commit with a sha, without separators, and without white space around its texts.
pub record IsLoggable (c : CommitDescriptor) : Type 0 where
  pub sha_some : c.sha ≢ []
  pub sha_lacks : Lacks field_separator c.sha × Lacks record_separator c.sha
  pub subject_lacks : Lacks field_separator c.subject × Lacks record_separator c.subject
  pub body_lacks : Lacks record_separator c.body
  pub sha_trimmed : IsTrimmed c.sha
  pub subject_trimmed : IsTrimmed c.subject
  pub body_trimmed : IsTrimmed c.body

-- The fields of a commit.
pub print_fields : CommitDescriptor → Text
print_fields c = c.sha ++ field_separator ∷ (c.subject ++ field_separator ∷ c.body)

-- A body is printed with a newline behind it, but nothing is printed for an empty one.
abbrev pub body_end : Text → Text
body_end [] = []
body_end (c ∷ body) = b'\n' ∷ []

-- `--format=%H%x1f%s%x1f%b%x1e`, with the newline that git puts behind every commit.
pub print_record : CommitDescriptor → Text
print_record c = print_fields c ++ body_end c.body

pub print_log : List CommitDescriptor → Text
print_log [] = []
print_log (c ∷ cs) = print_record c ++ record_separator ∷ b'\n' ∷ print_log cs

trim_space_lem : (t : Text) → IsTrimmed t → trim_space t ≡ t
unfolding trim_space
trim_space_lem t (l, r) = rw l r

trim_right-append :
    (s : Text) (c : ℕ) (t : Text)
    → trim_right (c ∷ t) ≡ c ∷ t
    → trim_right (s ++ c ∷ t) ≡ s ++ c ∷ t
unfolding trim_right
trim_right-append [] c t h = h
trim_right-append (x ∷ []) c t h = rw h
trim_right-append (x ∷ y ∷ s) c t h = rw (trim_right-append (y ∷ s) c t h)

trim_right-cons :
    (c : ℕ) (t : Text) → is_space c ≡ false → trim_right t ≡ t → trim_right (c ∷ t) ≡ c ∷ t
unfolding trim_right
trim_right-cons c [] k h = rw k
trim_right-cons c (d ∷ t) k h = rw h

trim_left-length : (s : Text) → length (trim_left s) ≤ length s
unfolding trim_left
trim_left-length [] = omega arith
trim_left-length (c ∷ s) = ground (arith, trim_left-length s)

starts : (c : ℕ) (s : Text) → trim_left (c ∷ s) ≡ c ∷ s → is_space c ≡ false
unfolding trim_left
starts c s h = elim (Bool-cases (is_space c)) [
  | inr black ↦ black
  | inl white ↦
      let longer : trim_left s ≡ c ∷ s = ground arith in
      let short : length (trim_left s) ≤ length s = trim_left-length s in
      absurd (ground (arith, ap length longer))
]

trim_left-append : (s t : Text) → s ≢ [] → trim_left s ≡ s → trim_left (s ++ t) ≡ s ++ t
unfolding trim_left
trim_left-append [] t n h = absurd (n refl)
trim_left-append (c ∷ s) t n h = rw (starts c s h)

print_fields-IsTrimmed : (c : CommitDescriptor) → IsLoggable c → IsTrimmed (print_fields c)
unfolding print_fields is_space
print_fields-IsTrimmed c v =
    let tail = c.subject ++ field_separator ∷ c.body in
    (
      trim_left-append c.sha (field_separator ∷ tail) v.sha_some v.sha_trimmed.0,
      trim_right-append c.sha field_separator tail (
          trim_right-cons field_separator tail refl (
            trim_right-append c.subject field_separator c.body
              (trim_right-cons field_separator c.body refl v.body_trimmed.1))),
    )

cut-append : (sep : ℕ) (s t : Text) → Lacks sep s → cut sep (s ++ sep ∷ t) ≡ (s, some t)
unfolding cut
cut-append sep [] t h = ground arith
cut-append sep (c ∷ s) t (h, hs) = ground (arith, cut-append sep s t hs)

append-is_empty : (s : Text) (c : ℕ) (t : Text) → is_empty (s ++ c ∷ t) ≡ false
append-is_empty [] c t = refl
append-is_empty (x ∷ s) c t = refl

parse_trimmed-print_fields :
    (c : CommitDescriptor) → IsLoggable c → parse_trimmed (print_fields c) ≡ some c
unfolding parse_trimmed print_fields
parse_trimmed-print_fields c v = ground (
  arith,
  append-is_empty c.sha field_separator (c.subject ++ field_separator ∷ c.body),
  cut-append field_separator c.sha (c.subject ++ field_separator ∷ c.body) v.sha_lacks.0,
  cut-append field_separator c.subject c.body v.subject_lacks.0,
  trim_space_lem c.sha v.sha_trimmed,
  trim_space_lem c.subject v.subject_trimmed,
  trim_space_lem c.body v.body_trimmed,
)

parse_records-cons :
    (entry : Text) (entries : List Text) {c : CommitDescriptor}
    → parse_record entry ≡ some c
    → parse_records (entry ∷ entries) ≡ c ∷ parse_records entries
unfolding parse_records
parse_records-cons entry entries h = rw (h, parse_records)

parse_record-print_fields :
    (c : CommitDescriptor) → IsLoggable c → parse_record (print_fields c) ≡ some c
unfolding parse_record
parse_record-print_fields c v =
    ap parse_trimmed (trim_space_lem (print_fields c) (print_fields-IsTrimmed c v))
    ∙ parse_trimmed-print_fields c v

trim_right_newline : (s : Text) → trim_right (s ++ (b'\n' ∷ [])) ≡ trim_right s
unfolding trim_right is_space
trim_right_newline [] = refl
trim_right_newline (c ∷ s) = rw (trim_right_newline s)

print_fields-ne-nil : (c : CommitDescriptor) → IsLoggable c → print_fields c ≢ []
unfolding print_fields
print_fields-ne-nil c v h = ground (
  arith,
  ap is_empty h,
  append-is_empty c.sha field_separator (c.subject ++ field_separator ∷ c.body),
)

-- The newline behind the body is trimmed away with the record.
trim_space-body_end :
    (c : CommitDescriptor) (body : Text)
    → IsLoggable c
    → trim_space (print_fields c ++ body_end body) ≡ trim_space (print_fields c)
unfolding trim_space
trim_space-body_end c [] v = ap trim_space (append-nil (print_fields c))
trim_space-body_end c (x ∷ body) v =
    let front = (print_fields-IsTrimmed c v).0 in
    ap trim_right (trim_left-append (print_fields c) (b'\n' ∷ []) (print_fields-ne-nil c v) front)
    ∙ trim_right_newline (print_fields c)
    ∙ ap trim_right (sym front)

parse_record-print_record :
    (c : CommitDescriptor) → IsLoggable c → parse_record (print_record c) ≡ some c
unfolding parse_record print_record
parse_record-print_record c v =
    ap parse_trimmed (trim_space-body_end c c.body v) ∙ parse_record-print_fields c v

newline_lacks : b'\n' ≢ record_separator
newline_lacks h = ground arith

-- A newline in front of a text is trimmed away.
trim_newline : (t : Text) → trim_space (b'\n' ∷ t) ≡ trim_space t
unfolding trim_space trim_left is_space
trim_newline t = refl

parse_record_newline : (t : Text) → parse_record (b'\n' ∷ t) ≡ parse_record t
unfolding parse_record
parse_record_newline t = ap parse_trimmed (trim_newline t)

print_fields-Lacks : (c : CommitDescriptor) → IsLoggable c → Lacks record_separator (print_fields c)
unfolding print_fields
print_fields-Lacks c v =
    let differs : field_separator ≢ record_separator = ground arith in
    All-append (λ x. x ≢ record_separator) c.sha
      (field_separator ∷ (c.subject ++ field_separator ∷ c.body)) v.sha_lacks.1
      (
        differs,
        All-append (λ x. x ≢ record_separator) c.subject (field_separator ∷ c.body)
            v.subject_lacks.1 (differs, v.body_lacks),
      )

body_end-Lacks : (body : Text) → Lacks record_separator (body_end body)
body_end-Lacks [] = tt
body_end-Lacks (c ∷ body) = (newline_lacks, tt)

print_record-Lacks : (c : CommitDescriptor) → IsLoggable c → Lacks record_separator (print_record c)
unfolding print_record
print_record-Lacks c v =
    All-append (λ x. x ≢ record_separator) (print_fields c) (body_end c.body)
      (print_fields-Lacks c v) (body_end-Lacks c.body)

-- The first record of a printed log, behind which the others follow.
split-print_log :
    (first : Text) (c : CommitDescriptor) (cs : List CommitDescriptor)
    → IsLoggable c
    → Lacks record_separator first
    → split record_separator (first ++ print_log (c ∷ cs))
      ≡ (first ++ print_record c) ∷ split record_separator (b'\n' ∷ print_log cs)
unfolding print_log
split-print_log first c cs v h =
    ap (split record_separator)
      (sym (append_assoc first (print_record c) (record_separator ∷ b'\n' ∷ print_log cs)))
    ∙ split-append record_separator (first ++ print_record c) (b'\n' ∷ print_log cs)
        (All-append (λ x. x ≢ record_separator) first (print_record c) h (print_record-Lacks c v))

-- The records of a printed log, behind the newline of the commit before.
records-print_log :
    (cs : List CommitDescriptor)
    → All IsLoggable cs
    → parse_records (split record_separator (b'\n' ∷ print_log cs)) ≡ cs
unfolding parse_records
records-print_log [] h =
    unfold print_log split parse_record parse_trimmed trim_space trim_left is_space in refl
records-print_log (c ∷ cs) (v, vs) =
    ap parse_records (split-print_log (b'\n' ∷ []) c cs v (newline_lacks, tt))
    ∙ parse_records-cons (b'\n' ∷ print_record c) (split record_separator (b'\n' ∷ print_log cs))
        {c = c} (parse_record_newline (print_record c) ∙ parse_record-print_record c v)
    ∙ ap (λ l. c ∷ l) (records-print_log cs vs)

-- The log of commits whose texts hold no separator and have no white space around them is parsed to these
-- commits, the newline behind every body left out.
pub parse-print_log :
    (cs : List CommitDescriptor) → All IsLoggable cs → parse_commit_log (print_log cs) ≡ cs
unfolding parse_commit_log parse_records
parse-print_log [] h =
    unfold print_log split parse_record parse_trimmed trim_space trim_left is_space in refl
parse-print_log (c ∷ cs) (v, vs) =
    ap parse_records (split-print_log [] c cs v tt)
    ∙ parse_records-cons (print_record c) (split record_separator (b'\n' ∷ print_log cs)) {c = c}
        (parse_record-print_record c v)
    ∙ ap (λ l. c ∷ l) (records-print_log cs vs)
