-- ===== src/Prelude/Decimal.antt =====
-- `fmt.Sprintf("%d", n)`, `strconv.ParseInt(s, 10, 64)` and `strconv.Atoi`.
pub mod RoundTrip
use devkit_go.Prelude.{
  ℕ, zero, suc, ◌+◌, ◌-◌, ◌*◌, ◌/◌, ◌%◌, ◌^◌, ◌≤◌, ◌<◌, ◌≡◌, ◌≢◌, refl, sym, ap, Bool, true, false,
  ◌&&◌, List, [], ◌∷◌, ◌++◌, append_assoc, Option, none, some, arith, ltb, leb, ◌==◌, if◌then◌else◌,
  Bool-cases, inl, inr, All, All-append,
}
use devkit_go.Prelude.Int.{ℤ, pos, negsuc, sub_ℕ}
use devkit_go.Prelude.Int64.{IsInt64}
use devkit_go.Prelude.Text.{Text, codes, Lacks}

-- The digits of `n` in front of `out`; `fuel` above `n` is enough.
unfoldable pub emit : ℕ → ℕ → Text → Text
emit zero n out = out
emit (suc fuel) n out =
    let digit = b'0' + n % 10 in
    let rest = emit fuel (n / 10) (digit ∷ out) in if ltb n 10 then digit ∷ out else rest

unfoldable pub format_nat : ℕ → Text
unfolding emit
format_nat n = emit (suc n) n []

unfoldable pub format_int : ℤ → Text
unfolding format_nat
format_int (pos n) = format_nat n
format_int (negsuc n) = b'-' ∷ format_nat (suc n)

abbrev pub is_digit : ℕ → Bool
is_digit c = leb b'0' c && leb c b'9'

abbrev pub all_digits : Text → Bool
all_digits [] = true
all_digits (c ∷ s) = is_digit c && all_digits s

-- Reads digits behind the value `n`. A result out of range is refused by the callers.
unfoldable pub read_digits : ℕ → Text → Option ℕ
read_digits n [] = some n
read_digits n (c ∷ s) =
    let rest = read_digits (n * 10 + (c - b'0')) s in if is_digit c then rest else none

-- At least one digit.
unfoldable pub read_nat : Text → Option ℕ
unfolding read_digits
read_nat [] = none
read_nat (c ∷ s) = read_digits 0 (c ∷ s)

abbrev pub up_to : ℕ → Option ℕ → Option ℕ
up_to bound none = none
up_to bound (some n) = if leb n bound then some n else none

abbrev pub signed : Bool → Option ℕ → Option ℤ
signed minus none = none
signed minus (some n) = some (if minus then sub_ℕ 0 n else pos n)

-- `strconv.ParseInt(s, 10, 64)` and `strconv.Atoi`; `none` is a syntax or a range error.
unfoldable pub parse_int : Text → Option ℤ
unfolding read_nat
parse_int [] = none
parse_int (c ∷ s) =
    if c == b'-'
    then signed true (up_to (2 ^ 63) (read_nat s))
    else signed false (up_to (2 ^ 63 - 1) (if c == b'+' then read_nat s else read_nat (c ∷ s)))
