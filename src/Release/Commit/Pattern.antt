-- ===== src/Release/Commit/Pattern.antt =====
-- The commit pattern of scripts/ci_release/domain/conventional_commit.go, against the shape of a subject.
use mathlib.Core.List.{cons-ne-nil}
use mathlib.Core.Path.{ap₂}
use devkit_go.Prelude.{
  ℕ, ◌≡◌, ◌≢◌, refl, sym, ◌∙◌, ap, Bool, true, false, [], ◌∷◌, ◌++◌, append_assoc, arith, some,
  Bool-cases, inl, inr, ◌==◌, ==_iff, if◌then◌else◌, All,
}
use devkit_go.Prelude.Text.{Text}
use devkit_go.Release.Commit.{
  Groups, is_lower, span, no_newline, match_bang, match_scope, match_tail, match_subject,
}

-- A subject with the given parts; an empty scope is left out.
pub render_scope : Text → Text
render_scope [] = []
render_scope (c ∷ s) = b'(' ∷ (c ∷ s) ++ b')' ∷ []

pub render : Groups → Text
unfolding render_scope
render g =
    g.kind
    ++ (render_scope g.scope ++ ((if g.bang then b'!' ∷ [] else []) ++ b':' ∷ b' ' ∷ g.description))

abbrev pub AllOf : (ℕ → Bool) → Text → Type 0
AllOf p = All (λ c. p c ≡ true)

abbrev pub not_close : ℕ → Bool
not_close d = if d == b')' then false else true

-- The parts that the pattern can give.
pub record IsCommitGroups (g : Groups) : Type 0 where
  pub kind_lower : AllOf is_lower g.kind
  pub kind_some : g.kind ≢ []
  pub scope_closed : AllOf not_close g.scope
  pub description_some : g.description ≢ []
  pub description_line : no_newline g.description ≡ true

span-append :
    (p : ℕ → Bool) (s : Text) (c : ℕ) (r : Text)
    → AllOf p s
    → p c ≡ false
    → span p (s ++ c ∷ r) ≡ (s, c ∷ r)
unfolding span
span-append p [] c r a h = rw h
span-append p (x ∷ s) c r (h, hs) k = rw (h, span-append p s c r hs k)

-- What is taken passes, and the parts make up the text.
span-parts : (p : ℕ → Bool) (s : Text) → (AllOf p (span p s).0) × ((span p s).0 ++ (span p s).1 ≡ s)
unfolding span
span-parts p [] = (tt, refl)
span-parts p (c ∷ s) = ground (arith, span-parts p s)

abbrev tail_of : Bool → Text → Text
tail_of bang description = (if bang then b'!' ∷ [] else []) ++ b':' ∷ b' ' ∷ description

abbrev groups : Text → Text → Bool → Text → Groups
groups kind scope bang description = record {
  kind = kind;
  scope = scope;
  bang = bang;
  description = description;
}

match_bang-render :
    (kind scope : Text) (bang : Bool) (description : Text)
    → description ≢ []
    → no_newline description ≡ true
    → match_bang kind scope (tail_of bang description) ≡ some (groups kind scope bang description)
unfolding match_bang
match_bang-render kind scope bang [] h k = absurd (h refl)
match_bang-render kind scope true (c ∷ s) h k = ground arith
match_bang-render kind scope false (c ∷ s) h k = ground arith

span-kind :
    (kind : Text) (c : ℕ) (r : Text)
    → AllOf is_lower kind
    → is_lower c ≡ false
    → match_subject (kind ++ c ∷ r) ≡ match_tail (kind, c ∷ r)
unfolding match_subject
span-kind kind c r h k = ap match_tail (span-append is_lower kind c r h k)

match_tail-scope :
    (kind : Text) (c : ℕ) (s : Text) (bang : Bool) (description : Text)
    → kind ≢ []
    → AllOf not_close (c ∷ s)
    → description ≢ []
    → no_newline description ≡ true
    → match_tail (kind, b'(' ∷ (c ∷ s ++ b')' ∷ tail_of bang description))
      ≡ some (groups kind (c ∷ s) bang description)
unfolding match_tail
match_tail-scope [] c s bang description n a h k = absurd (n refl)
match_tail-scope (x ∷ kind) c s bang description n a h k =
    ap (match_scope (x ∷ kind))
      (span-append not_close (c ∷ s) b')' (tail_of bang description) a refl)
    ∙ match_bang-render (x ∷ kind) (c ∷ s) bang description h k

match_tail-plain :
    (kind : Text) (bang : Bool) (description : Text)
    → kind ≢ []
    → description ≢ []
    → no_newline description ≡ true
    → match_tail (kind, tail_of bang description) ≡ some (groups kind [] bang description)
unfolding match_tail
match_tail-plain [] bang description n h k = absurd (n refl)
match_tail-plain (x ∷ kind) true description n h k =
    match_bang-render (x ∷ kind) [] true description h k
match_tail-plain (x ∷ kind) false description n h k =
    match_bang-render (x ∷ kind) [] false description h k

match-groups :
    (kind scope : Text) (bang : Bool) (description : Text)
    → IsCommitGroups (groups kind scope bang description)
    → match_subject (render (groups kind scope bang description))
      ≡ some (groups kind scope bang description)
unfolding render
match-groups kind [] true description v =
    span-kind kind b'!' (b':' ∷ b' ' ∷ description) v.kind_lower refl
    ∙ match_tail-plain kind true description v.kind_some v.description_some v.description_line
match-groups kind [] false description v =
    span-kind kind b':' (b' ' ∷ description) v.kind_lower refl
    ∙ match_tail-plain kind false description v.kind_some v.description_some v.description_line
match-groups kind (c ∷ s) bang description v =
    ap (λ t. match_subject (kind ++ b'(' ∷ t))
      (append_assoc (c ∷ s) (b')' ∷ []) (tail_of bang description))
    ∙ span-kind kind b'(' (c ∷ s ++ b')' ∷ tail_of bang description) v.kind_lower refl
    ∙ match_tail-scope kind c s bang description v.kind_some v.scope_closed v.description_some
        v.description_line

-- A subject made of parts that have the shape is accepted with these parts.
pub match-render : (g : Groups) → IsCommitGroups g → match_subject (render g) ≡ some g
match-render g v = match-groups g.kind g.scope g.bang g.description v

-- What a match says of the text behind the scope.
match_bang-parts :
    (kind scope s : Text) {g : Groups}
    → match_bang kind scope s ≡ some g
    → (g.kind ≡ kind)
      × (g.scope ≡ scope)
      × (s ≡ tail_of g.bang g.description)
      × (g.description ≢ [])
      × (no_newline g.description ≡ true)
unfolding match_bang
match_bang-parts kind scope [] h = cc
match_bang-parts kind scope (c ∷ []) h = ground arith
match_bang-parts kind scope (c ∷ d ∷ []) h = ground arith
match_bang-parts kind scope (c ∷ d ∷ e ∷ []) h = ground arith
match_bang-parts kind scope (c ∷ d ∷ e ∷ f ∷ s) h = ground arith

-- `span` stops at a character that does not pass.
span_stop : (p : ℕ → Bool) (s : Text) {d : ℕ} {r : Text} → (span p s).1 ≡ d ∷ r → p d ≡ false
unfolding span
span_stop p [] h = cc
span_stop p (c ∷ s) {d} {r} h = ground (arith, span_stop p s {d = d} {r = r})

closes : (d : ℕ) → not_close d ≡ false → d ≡ b')'
closes d h = ground arith

-- Behind the type: what is left of the text is the rest of the print.
abbrev Behind : Text → Groups → Text → Type 0
Behind kind g rest =
    (g.kind ≡ kind)
    × AllOf not_close g.scope
    × (rest ≡ render_scope g.scope ++ tail_of g.bang g.description)
    × (g.description ≢ [])
    × (no_newline g.description ≡ true)

match_scope-Behind :
    (kind scope after rest : Text) {g : Groups}
    → AllOf not_close scope
    → scope ++ after ≡ rest
    → ((d : ℕ) (r : Text) → after ≡ d ∷ r → d ≡ b')')
    → match_scope kind (scope, after) ≡ some g
    → Behind kind g (b'(' ∷ rest)
unfolding match_scope render_scope
match_scope-Behind kind [] after rest a w stop h = cc
match_scope-Behind kind (c ∷ s) [] rest a w stop h = cc
match_scope-Behind kind (c ∷ s) (d ∷ r) rest {g} a w stop h =
    let (k, sc, e, n, l) = match_bang-parts kind (c ∷ s) r {g = g} h in
    let shape : (c ∷ s) ++ d ∷ r ≡ (c ∷ s ++ b')' ∷ []) ++ tail_of g.bang g.description =
      ap₂ (λ x y. (c ∷ s) ++ x ∷ y) (stop d r refl) e
      ∙ sym (append_assoc (c ∷ s) (b')' ∷ []) (tail_of g.bang g.description)) in
    (k, rw sc a, rw sc (ap (λ t. b'(' ∷ t) (sym w ∙ shape)), n, l)

match_tail-parts :
    (kind rest : Text) {g : Groups}
    → match_tail (kind, rest) ≡ some g
    → (kind ≢ []) × Behind kind g rest
unfolding match_tail render_scope
match_tail-parts [] rest h = cc
match_tail-parts (x ∷ kind) [] h = cc
match_tail-parts (x ∷ kind) (c ∷ rest) {g} h = elim (Bool-cases (c == b'(')) [
  | inl open_paren ↦
      let (all, whole) = span-parts not_close rest in
      let m : match_scope (x ∷ kind) (span not_close rest) ≡ some g = ground arith in
      (
        λ nil. cons-ne-nil x kind nil,
        rw ((==_iff c b'(').0 open_paren) (
            match_scope-Behind (x ∷ kind) (span not_close rest).0 (span not_close rest).1 rest
              {g = g} all whole (λ d r e. closes d (span_stop not_close rest {d = d} {r = r} e)) m),
      )
  | inr other ↦
      let (k, sc, e, n, l) = match_bang-parts (x ∷ kind) [] (c ∷ rest) {g = g} (ground arith) in
      (λ nil. cons-ne-nil x kind nil, (k, rw sc tt, rw sc e, n, l))
]

-- An accepted subject is the print of its parts, and the parts have the shape.
pub render-match :
    (s : Text) {g : Groups} → match_subject s ≡ some g → (render g ≡ s) × IsCommitGroups g
unfolding match_subject render
render-match s {g} h =
    let (all, whole) = span-parts is_lower s in
    let (n, behind) = match_tail-parts (span is_lower s).0 (span is_lower s).1 {g = g} h in
    let (k, a, e, d, l) = behind in
    (
      rw (k, ← e, whole),
      record {
        kind_lower = rw k all;
        kind_some = rw k n;
        scope_closed = a;
        description_some = d;
        description_line = l;
      },
    )
