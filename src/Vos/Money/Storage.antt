-- ===== src/Vos/Money/Storage.antt =====
-- `Value` and `Scan` of pkg/vos/money.go on what the database holds.
use devkit_go.Prelude.{
  ◌≡◌, refl, ◌∙◌, ap, true, List, [], ◌∷◌, map, arith, inl, inr, ok, All, Bool-cases,
}
use devkit_go.Prelude.Text.{
  Text, text_eq, text_eq_iff, text_mem, upper_ascii, Lacks, split, split_lacking, split-append,
}
use devkit_go.Prelude.Decimal.{format_int}
use devkit_go.Prelude.Decimal.RoundTrip.{parse_int-format_int, format_int-Lacks}
use devkit_go.Vos.Float.{Float64, DbValue}
use devkit_go.Vos.Currency.{Currency, is_valid, new_currency, valid_currencies}
use devkit_go.Vos.Money.{Money, new_money, value, scan_parts, scan}
use devkit_go.Vos.Money.Arithmetic.{IsValid}

-- A property of the codes holds of every valid currency.
text_mem-All :
    (P : Text → Type 0) (ts : List Text) (c : Text) → text_mem c ts ≡ true → All P ts → P c
unfolding text_mem
text_mem-All P [] c h a = cc
text_mem-All P (t ∷ ts) c h (p, ps) = elim (Bool-cases (text_eq c t)) [
  | inl e ↦ rw ((text_eq_iff c t).0 e) p
  | inr e ↦ text_mem-All P ts c (ground arith) ps
]

-- A code that `Scan` reads back: no colon, and already in upper case.
abbrev IsStored : Text → Type 0
IsStored c = Lacks b':' c × (map upper_ascii c ≡ c)

valid_currencies-IsStored : All IsStored valid_currencies
unfolding upper_ascii
valid_currencies-IsStored = ground arith

is_valid-IsStored : (c : Currency) → is_valid c ≡ true → IsStored c
unfolding is_valid
is_valid-IsStored c h = text_mem-All IsStored valid_currencies c h valid_currencies-IsStored

-- A valid code is read as itself.
pub new_currency_lem : (c : Currency) → is_valid c ≡ true → new_currency c ≡ ok c
unfolding new_currency
new_currency_lem c h = rw (is_valid-IsStored c h).1 (rw h)

split-value : (m : Money) → IsValid m → split b':' (value m) ≡ format_int m.cents ∷ m.currency ∷ []
unfolding value
split-value m v =
    split-append b':' (format_int m.cents) m.currency
      (format_int-Lacks b':' m.cents refl (ground arith))
    ∙ ap (λ ps. format_int m.cents ∷ ps)
        (split_lacking b':' m.currency (is_valid-IsStored m.currency v.known).0)

new_money_lem : (m : Money) → IsValid m → new_money m.cents m.currency ≡ ok m
unfolding new_money
new_money_lem m v = ground arith

scan_parts-value :
    (m : Money) → IsValid m → scan_parts (format_int m.cents ∷ m.currency ∷ []) ≡ ok m
unfolding scan_parts
scan_parts-value m v = ground (
  arith,
  parse_int-format_int m.cents (ground arith),
  new_currency_lem m.currency v.known,
  new_money_lem m v,
)

-- A valid amount is read back from what the database holds, as text or as bytes.
pub scan-value :
    (F : Float64) (m : Money)
    → IsValid m
    → (scan F (DbValue.string (value m)) ≡ ok m) × (scan F (DbValue.bytes (value m)) ≡ ok m)
unfolding scan
scan-value F m v = rw (split-value m v) (scan_parts-value m v, scan_parts-value m v)
