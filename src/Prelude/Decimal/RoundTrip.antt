-- ===== src/Prelude/Decimal/RoundTrip.antt =====
-- What is printed in decimal is read back, and canonical text is printed again from its value.
use devkit_go.Prelude.{
  ℕ, zero, suc, ◌+◌, ◌-◌, ◌*◌, ◌/◌, ◌%◌, ◌^◌, ◌<◌, ◌≡◌, ◌≢◌, refl, sym, ap, Bool, true, false, [],
  ◌∷◌, ◌++◌, append_assoc, append-nil, some, arith, leb, ◌&&◌, Bool-cases, Option-cases, inl, inr,
  All, ◌∙◌,
}
use devkit_go.Prelude.Int.{ℤ, pos, negsuc}
use devkit_go.Prelude.Int64.{IsInt64}
use devkit_go.Prelude.Text.{Text, Lacks}
use devkit_go.Prelude.Decimal.{
  emit, format_nat, format_int, is_digit, all_digits, read_digits, read_nat, parse_int, up_to,
  signed,
}

read_digits-emit :
    (fuel n : ℕ) (out : Text) → n < fuel → read_digits 0 (emit fuel n out) ≡ read_digits n out
unfolding emit read_digits
read_digits-emit zero n out h = elim h [ ]
read_digits-emit (suc fuel) n out h =
    ground (arith, read_digits-emit fuel (n / 10) ((b'0' + n % 10) ∷ out))

abbrev pub IsDigit : ℕ → Type 0
IsDigit c = is_digit c ≡ true

emit-IsDigit : (fuel n : ℕ) (out : Text) → All IsDigit out → All IsDigit (emit fuel n out)
unfolding emit
emit-IsDigit zero n out h = h
emit-IsDigit (suc fuel) n out h = ground (arith, emit-IsDigit fuel (n / 10) ((b'0' + n % 10) ∷ out))

pub format_nat-IsDigit : (n : ℕ) → All IsDigit (format_nat n)
unfolding format_nat
format_nat-IsDigit n = emit-IsDigit (suc n) n [] tt

emit-append : (fuel n : ℕ) (out : Text) → emit fuel n out ≡ emit fuel n [] ++ out
unfolding emit
emit-append zero n out = refl
emit-append (suc fuel) n out = ground (
  arith,
  emit-append fuel (n / 10) ((b'0' + n % 10) ∷ out),
  emit-append fuel (n / 10) ((b'0' + n % 10) ∷ []),
  append_assoc (emit fuel (n / 10) []) ((b'0' + n % 10) ∷ []) out,
)

-- Any fuel above the number gives the same digits.
emit-fuel : (f g n : ℕ) (out : Text) → n < f → n < g → emit f n out ≡ emit g n out
unfolding emit
emit-fuel zero g n out h k = elim h [ ]
emit-fuel (suc f) zero n out h k = elim k [ ]
emit-fuel (suc f) (suc g) n out h k = ground (arith, emit-fuel f g (n / 10) ((b'0' + n % 10) ∷ out))

emit-ne-nil : (fuel n : ℕ) (out : Text) → out ≢ [] → emit fuel n out ≢ []
unfolding emit
emit-ne-nil zero n out h = h
emit-ne-nil (suc fuel) n out h = ground (arith, emit-ne-nil fuel (n / 10) ((b'0' + n % 10) ∷ out))

pub format_nat-ne-nil : (n : ℕ) → format_nat n ≢ []
unfolding format_nat
format_nat-ne-nil n = ground (arith, emit-ne-nil n (n / 10) ((b'0' + n % 10) ∷ []))

read_nat-read_digits : (s : Text) → s ≢ [] → read_nat s ≡ read_digits 0 s
unfolding read_nat
read_nat-read_digits [] h = absurd (h refl)
read_nat-read_digits (c ∷ s) h = refl

pub read_nat-format_nat : (n : ℕ) → read_nat (format_nat n) ≡ some n
read_nat-format_nat n = rw (read_nat-read_digits (format_nat n) (format_nat-ne-nil n)) (
    unfold format_nat in read_digits-emit (suc n) n [] (omega arith) ∙ (unfold read_digits in refl))

-- A text of digits has no sign in front.
parse_int_digits :
    (s : Text) → All IsDigit s → parse_int s ≡ signed false (up_to (2 ^ 63 - 1) (read_nat s))
unfolding parse_int
parse_int_digits [] h = unfold read_nat in refl
parse_int_digits (c ∷ s) (h, _) = ground arith

pub parse_int-format_nat : (n : ℕ) → n < 2 ^ 63 → parse_int (format_nat n) ≡ some (pos n)
parse_int-format_nat n h =
    parse_int_digits (format_nat n) (format_nat-IsDigit n) ∙ ground (arith, read_nat-format_nat n)

-- Every int64 is read back from its decimal print.
pub parse_int-format_int : (a : ℤ) → IsInt64 a → parse_int (format_int a) ≡ some a
unfolding format_int
parse_int-format_int (pos n) h = parse_int-format_nat n h.0
parse_int-format_int (negsuc n) h = unfold parse_int in ground (arith, read_nat-format_nat (suc n))

All-Lacks : (b : ℕ) (s : Text) → is_digit b ≡ false → All IsDigit s → Lacks b s
All-Lacks b [] h _ = tt
All-Lacks b (c ∷ s) h (d, ds) = (ground arith, All-Lacks b s h ds)

-- The print of a number holds only digits and at most a minus sign.
pub format_int-Lacks : (b : ℕ) (a : ℤ) → is_digit b ≡ false → b ≢ b'-' → Lacks b (format_int a)
unfolding format_int
format_int-Lacks b (pos n) h _ = All-Lacks b (format_nat n) h (format_nat-IsDigit n)
format_int-Lacks b (negsuc n) h k =
    (λ e. k (sym e), All-Lacks b (format_nat (suc n)) h (format_nat-IsDigit (suc n)))

-- One round of `emit` on a number of two digits or more.
emit_round :
    (fuel a d : ℕ) (out : Text)
    → 0 < a
    → d < 10
    → emit (suc fuel) (a * 10 + d) out ≡ emit fuel a ((b'0' + d) ∷ out)
unfolding emit
emit_round fuel a d out h k =
    let low : (a * 10 + d) % 10 ≡ d = omega arith in
    let high : (a * 10 + d) / 10 ≡ a = omega arith in rw (low, high) (ground arith)

-- One more digit behind a positive number.
format_nat-snoc :
    (a d : ℕ) → 0 < a → d < 10 → format_nat (a * 10 + d) ≡ format_nat a ++ (b'0' + d) ∷ []
unfolding format_nat
format_nat-snoc a d h k =
    emit_round (a * 10 + d) a d [] h k
    ∙ emit-append (a * 10 + d) a ((b'0' + d) ∷ [])
    ∙ ap (λ s. s ++ (b'0' + d) ∷ [])
        (emit-fuel (a * 10 + d) (suc a) a [] (omega arith) (omega arith))

-- Digits read behind a positive number are printed behind it.
format_nat-read_digits :
    (a : ℕ) (s : Text) {n : ℕ} → 0 < a → read_digits a s ≡ some n → format_nat n ≡ format_nat a ++ s
unfolding read_digits
format_nat-read_digits a [] {n} h e = ground (arith, append-nil (format_nat a))
format_nat-read_digits a (c ∷ s) {n} h e = elim (Bool-cases (is_digit c)) [
  | inl d ↦
      let m : ℕ = a * 10 + (c - b'0') in
      let ih : format_nat n ≡ format_nat m ++ s =
        format_nat-read_digits m s (omega arith) (ground arith) in
      let c' : b'0' + (c - b'0') ≡ c = ground arith in
      ih
      ∙ ap (λ t. t ++ s) (format_nat-snoc a (c - b'0') h (ground arith))
      ∙ append_assoc (format_nat a) ((b'0' + (c - b'0')) ∷ []) s
      ∙ ap (λ x. format_nat a ++ x ∷ s) c'
  | inr d ↦ ground arith
]

-- A number without leading zeros: `0`, or a digit from 1 to 9 and any digits.
abbrev pub is_canonical : Text → Bool
is_canonical [] = false
is_canonical (c ∷ []) = is_digit c
is_canonical (c ∷ d ∷ s) = leb b'1' c && leb c b'9' && all_digits (d ∷ s)

format_nat-digit : (d : ℕ) → d < 10 → format_nat d ≡ (b'0' + d) ∷ []
unfolding format_nat emit
format_nat-digit d h = let low : d % 10 ≡ d = omega arith in rw low (ground arith)

-- Canonical text is the print of the number that it spells.
pub format_nat-read_nat :
    (s : Text) {n : ℕ} → is_canonical s ≡ true → read_nat s ≡ some n → format_nat n ≡ s
unfolding read_nat
format_nat-read_nat [] h e = cc
format_nat-read_nat (c ∷ []) {n} h e =
    let n' : n ≡ c - b'0' = unfold read_digits in ground arith in
    rw (n', format_nat-digit (c - b'0') (ground arith)) (ground arith)
format_nat-read_nat (c ∷ d ∷ s) {n} h e =
    let m : ℕ = c - b'0' in
    let e' : read_digits m (d ∷ s) ≡ some n = unfold read_digits in ground arith in
    format_nat-read_digits m (d ∷ s) (ground arith) e'
    ∙ ap (λ t. t ++ d ∷ s) (format_nat-digit m (ground arith))
    ∙ ap (λ x. x ∷ d ∷ s) (ground arith)

-- A digit from 1 to 9, and any digits.
abbrev starts_nonzero : Text → Bool
starts_nonzero [] = false
starts_nonzero (c ∷ s) = leb b'1' c && leb c b'9' && all_digits s

emit-starts_nonzero :
    (fuel n : ℕ) (out : Text)
    → n < fuel
    → 0 < n
    → all_digits out ≡ true
    → starts_nonzero (emit fuel n out) ≡ true
unfolding emit
emit-starts_nonzero zero n out h k d = elim h [ ]
emit-starts_nonzero (suc fuel) n out h k d =
    ground (arith, emit-starts_nonzero fuel (n / 10) ((b'0' + n % 10) ∷ out))

canonical_of_nonzero : (s : Text) → starts_nonzero s ≡ true → is_canonical s ≡ true
canonical_of_nonzero [] h = cc
canonical_of_nonzero (c ∷ []) h = ground arith
canonical_of_nonzero (c ∷ d ∷ s) h = h

-- The print of a number has no leading zeros.
pub format_nat-canonical : (n : ℕ) → is_canonical (format_nat n) ≡ true
format_nat-canonical zero = unfold format_nat emit in refl
format_nat-canonical (suc n) = canonical_of_nonzero (format_nat (suc n)) (
    unfold format_nat in
    emit-starts_nonzero (suc (suc n)) (suc n) [] (omega arith) (omega arith) refl)

first_digit : (c : ℕ) (s : Text) → is_canonical (c ∷ s) ≡ true → is_digit c ≡ true
first_digit c [] h = h
first_digit c (d ∷ s) h = ground arith

-- What is read from a canonical text is natural, fits, and is printed as that text.
pub parse_int_canonical :
    (s : Text) {z : ℤ}
    → is_canonical s ≡ true
    → parse_int s ≡ some z
    → (n : ℕ) × (z ≡ pos n) × (n < 2 ^ 63) × (format_int z ≡ s)
unfolding parse_int
parse_int_canonical [] h e = cc
parse_int_canonical (c ∷ s) {z} h e = elim (Option-cases (read_nat (c ∷ s))) [
  | inl bad ↦ absurd (ground (arith, first_digit c s h))
  | inr (n, good) ↦
      let low : n < 2 ^ 63 = ground (arith, first_digit c s h) in
      let e' : z ≡ pos n = ground (arith, first_digit c s h) in
      (n, e', low, rw e' (unfold format_int in format_nat-read_nat (c ∷ s) h good))
]
