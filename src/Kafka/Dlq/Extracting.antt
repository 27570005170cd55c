-- ===== src/Kafka/Dlq/Extracting.antt =====
-- The map that `extractHeaders` of pkg/messaging/kafka/new_consumer.go makes of the headers of a message.
use devkit_go.Prelude.{
  ◌≡◌, refl, sym, subst, ◌∙◌, ap, arith, true, false, [], ◌∷◌, if◌then◌else◌, Bool-cases, inl, inr,
}
use devkit_go.Prelude.Text.{Text, text_eq, text_eq_iff}
use devkit_go.Kafka.Dlq.{Headers, Message, header, put_header, put_headers, extract_headers}

-- The last value of a key, or else the one that is given.
unfoldable pub last_value : Text → Headers → Text → Text
last_value key [] fallback = fallback
last_value key ((k, v) ∷ rest) fallback =
    last_value key rest (if text_eq key k then v else fallback)

text_eq_other : (j k k' : Text) → text_eq k k' ≡ true → text_eq j k ≡ false → text_eq j k' ≡ false
text_eq_other j k k' h n = subst (λ t. text_eq j t ≡ false) ((text_eq_iff k k').0 h) n

text_eq_same : (j k k' : Text) → text_eq k k' ≡ false → text_eq j k ≡ true → text_eq j k' ≡ false
text_eq_same j k k' h e = subst (λ t. text_eq t k' ≡ false) (sym ((text_eq_iff j k).0 e)) h

header-put_header :
    (key k v : Text) (made : Headers)
    → header key (put_header k v made) ≡ (if text_eq key k then v else header key made)
unfolding header put_header
header-put_header key k v [] = refl
header-put_header key k v ((k', v') ∷ rest) = elim (Bool-cases (text_eq k k')) [
  | inl same ↦ elim (Bool-cases (text_eq key k)) [
    | inl here ↦ ground arith
    | inr there ↦ ground (arith, text_eq_other key k k' same there)
  ]
  | inr other ↦ elim (Bool-cases (text_eq key k)) [
    | inl here ↦ ground (arith, header-put_header key k v rest, text_eq_same key k k' other here)
    | inr there ↦ ground (arith, header-put_header key k v rest)
  ]
]

header-put_headers :
    (key : Text) (hs made : Headers)
    → header key (put_headers hs made) ≡ last_value key hs (header key made)
unfolding put_headers last_value
header-put_headers key [] made = refl
header-put_headers key ((k, v) ∷ hs) made =
    header-put_headers key hs (put_header k v made)
    ∙ ap (last_value key hs) (header-put_header key k v made)

-- Of a key that a message has more than once, the map holds the last value.
pub header-extract_headers :
    (key : Text) (msg : Message) → header key (extract_headers msg) ≡ last_value key msg.headers []
unfolding header
header-extract_headers key msg = header-put_headers key msg.headers []
