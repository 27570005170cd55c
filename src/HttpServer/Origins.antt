-- ===== src/HttpServer/Origins.antt =====
-- pkg/http_server/common/cors.go.
use devkit_go.Prelude.{
  ◌≡◌, ◌⊎◌, ◌↔◌, inl, inr, sym, ap, subst, arith, Bool, true, false, ◌&&◌, ◌||◌, List, [], ◌∷◌,
  if◌then◌else◌, Result, ok, err, Bool-cases, length, ltb,
}
use devkit_go.Prelude.Text.{Text, text_eq, text_eq_iff, text_eq_refl, text_mem, split, trim_space}

pub data OriginsError : Type 0 where
  wildcard_combined : OriginsError

abbrev pub is_empty : Text → Bool
is_empty [] = true
is_empty (c ∷ s) = false

abbrev pub wildcard : Text
wildcard = b'*' ∷ []

-- The loop over the parts: those that are not blank, trimmed.
unfoldable pub entries : List Text → List Text
entries [] = []
entries (part ∷ parts) =
    let rest = entries parts in let p = trim_space part in if is_empty p then rest else p ∷ rest

unfoldable pub parse_origins : Text → Result OriginsError (List Text)
parse_origins origins =
    let result = entries (split b',' origins) in
    if is_empty (trim_space origins)
    then ok []
    else if text_eq (trim_space origins) wildcard
    then ok (wildcard ∷ [])
    else if text_mem wildcard result && ltb 1 (length result)
    then err wildcard_combined
    else ok result

abbrev pub is_wildcard : List Text → Bool
is_wildcard (o ∷ []) = text_eq o wildcard
is_wildcard _ = false

unfoldable pub is_origin_allowed : Text → List Text → Bool
is_origin_allowed origin allowed = is_wildcard allowed || text_mem origin allowed

text_eq_swap : (s t : Text) → text_eq s t ≡ true → text_eq t s ≡ true
text_eq_swap s t h = (text_eq_iff t s).1 (sym ((text_eq_iff s t).0 h))

-- The lists that are given: none, the wildcard, or the entries with no wildcard among several.
parse_origins-cases :
    (origins : Text) (l : List Text)
    → parse_origins origins ≡ ok l
    → (([] ≡ l) ⊎ ((wildcard ∷ []) ≡ l)) ⊎ ((text_mem wildcard l && ltb 1 (length l)) ≡ false)
unfolding parse_origins
parse_origins-cases origins l h = elim (Bool-cases (is_empty (trim_space origins))) [
  | inl blank ↦ inl (inl (ground arith))
  | inr said ↦ elim (Bool-cases (text_eq (trim_space origins) wildcard)) [
    | inl star ↦ inl (inr (ground arith))
    | inr other ↦
        let same : entries (split b',' origins) ≡ l = ground arith in
        inr (subst (λ k. (text_mem wildcard k && ltb 1 (length k)) ≡ false) same (ground arith))
  ]
]

alone :
    (l : List Text)
    → (text_mem wildcard l && ltb 1 (length l)) ≡ false
    → text_mem wildcard l ≡ true
    → is_wildcard l ≡ true
unfolding text_mem
alone [] h m = absurd (ground arith)
alone (o ∷ []) h m = text_eq_swap wildcard o (ground arith)
alone (o ∷ (p ∷ l)) h m = absurd (ground arith)

wildcard_listed : (l : List Text) → is_wildcard l ≡ true → text_mem wildcard l ≡ true
unfolding text_mem
wildcard_listed [] h = absurd (ground arith)
wildcard_listed (o ∷ []) h = ground (arith, text_eq_swap o wildcard h)
wildcard_listed (o ∷ (p ∷ l)) h = absurd (ground arith)

-- The wildcard stands alone in a list that is parsed.
parse_origins-alone :
    (origins : Text) (l : List Text)
    → parse_origins origins ≡ ok l
    → text_mem wildcard l ≡ true
    → is_wildcard l ≡ true
unfolding text_mem
parse_origins-alone origins l h m = elim (parse_origins-cases origins l h) [
  | inl (inl e) ↦ absurd (ground (arith, ap (text_mem wildcard) e))
  | inl (inr e) ↦ subst (λ k. is_wildcard k ≡ true) e (text_eq_refl wildcard)
  | inr e ↦ alone l e m
]

-- Of origins that are parsed, exactly the listed ones are allowed, and all if the wildcard is listed.
pub parse_origins-allowed :
    (origins origin : Text) {l : List Text}
    → parse_origins origins ≡ ok l
    → (is_origin_allowed origin l ≡ true)
      ↔ ((text_mem origin l ≡ true) ⊎ (text_mem wildcard l ≡ true))
unfolding is_origin_allowed
parse_origins-allowed origins origin {l} h =
    ground (arith, parse_origins-alone origins l h, wildcard_listed l)
