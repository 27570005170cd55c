-- ===== src/HttpServer/RequestId.antt =====
-- pkg/http_server/common/request_id.go. Go measures the length in bytes, which are the code points of
-- a text that the pattern accepts; a text that it does not accept is refused at any length.
use devkit_go.Prelude.{
  ℕ, ◌≡◌, ◌≤◌, refl, ap, subst, ◌∙◌, arith, Bool, true, false, not, ◌&&◌, ◌||◌, Option, none, some,
  [], ◌∷◌, if◌then◌else◌, leb, ltb, ◌==◌, length,
}
use devkit_go.Prelude.Text.{Text, trim_space, is_space, trim_left, trim_right}

abbrev pub max_request_id_length : ℕ
max_request_id_length = 128

-- `[A-Za-z0-9._-]`
abbrev pub is_id_char : ℕ → Bool
is_id_char c =
    (leb b'A' c && leb c b'Z')
    || (leb b'a' c && leb c b'z')
    || (leb b'0' c && leb c b'9')
    || c == b'.'
    || c == b'_'
    || c == b'-'

unfoldable pub all_id_chars : Text → Bool
all_id_chars [] = true
all_id_chars (c ∷ s) = is_id_char c && all_id_chars s

abbrev pub is_empty : Text → Bool
is_empty [] = true
is_empty (c ∷ s) = false

unfoldable pub validate_request_id : Text → Option Text
validate_request_id raw =
    let s = trim_space raw in
    if is_empty s
    then none
    else if ltb max_request_id_length (length s)
    then none
    else if not (all_id_chars s)
    then none
    else some s

id_char-space : (c : ℕ) → is_id_char c ≡ true → is_space c ≡ false
unfolding is_space
id_char-space c h = ground arith

trim_left-id : (s : Text) → all_id_chars s ≡ true → trim_left s ≡ s
unfolding trim_left all_id_chars
trim_left-id [] h = refl
trim_left-id (c ∷ s) h = ground (arith, id_char-space c)

trim_right-id : (s : Text) → all_id_chars s ≡ true → trim_right s ≡ s
unfolding trim_right all_id_chars
trim_right-id [] h = refl
trim_right-id (c ∷ []) h = ground (arith, id_char-space c)
trim_right-id (c ∷ d ∷ t) h = rw (trim_right-id (d ∷ t) (ground arith), trim_right) refl

trim_space-id : (s : Text) → all_id_chars s ≡ true → trim_space s ≡ s
unfolding trim_space
trim_space-id s h = ap trim_right (trim_left-id s h) ∙ trim_right-id s h

not_empty : (s : Text) → is_empty s ≡ false → 1 ≤ length s
not_empty [] h = absurd (ground arith)
not_empty (c ∷ s) h = omega arith

-- An accepted request id holds between 1 and 128 characters, all of them letters, digits, dots,
-- underscores or dashes, and it is accepted again as it is.
pub validate_request_id-safe :
    (raw : Text) {s : Text}
    → validate_request_id raw ≡ some s
    → (1 ≤ length s)
      × (length s ≤ max_request_id_length)
      × (all_id_chars s ≡ true)
      × (validate_request_id s ≡ some s)
unfolding validate_request_id
validate_request_id-safe raw {s} h =
    let same : trim_space raw ≡ s = ground arith in
    let chars : all_id_chars s ≡ true = subst (λ t. all_id_chars t ≡ true) same (ground arith) in
    let short : ltb max_request_id_length (length s) ≡ false =
      subst (λ t. ltb max_request_id_length (length t) ≡ false) same (ground arith) in
    let some_char : is_empty s ≡ false = subst (λ t. is_empty t ≡ false) same (ground arith) in
    (
      not_empty s some_char,
      ground (arith, short),
      chars,
      ground (arith, chars, short, some_char, trim_space-id s chars),
    )
