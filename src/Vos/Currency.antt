-- ===== src/Vos/Currency.antt =====
-- pkg/vos/currency.go. A currency is its code.
use devkit_go.Prelude.{Bool, List, [], ◌∷◌, map, if◌then◌else◌, Result, ok, err}
use devkit_go.Prelude.Text.{Text, codes, text_eq, text_mem, upper_ascii}
use devkit_go.Vos.{Error, invalid_currency, invalid_format, null_value}
use devkit_go.Vos.Float.{DbValue}

abbrev pub Currency : Type 0
Currency = Text

abbrev pub brl : Currency
brl = codes "BRL"

-- The keys of the map `validCurrencies`.
abbrev pub valid_currencies : List Currency
valid_currencies =
    brl
    ∷ codes "USD"
    ∷ codes "EUR"
    ∷ codes "GBP"
    ∷ codes "JPY"
    ∷ codes "CAD"
    ∷ codes "AUD"
    ∷ codes "CHF"
    ∷ codes "CNY"
    ∷ codes "INR"
    ∷ codes "MXN"
    ∷ codes "ARS"
    ∷ []

unfoldable pub is_valid : Currency → Bool
unfolding text_mem text_eq
is_valid c = text_mem c valid_currencies

unfoldable pub new_currency : Text → Result Error Currency
unfolding is_valid upper_ascii
new_currency code =
    let c = map upper_ascii code in if is_valid c then ok c else err invalid_currency

-- `Value` for the database.
unfoldable pub value : Currency → Result Error Text
unfolding is_valid
value c = if is_valid c then ok c else err invalid_currency

-- `Scan`: what the receiver becomes.
unfoldable pub scan : {F : Type 0} → DbValue F → Result Error Currency
unfolding new_currency
scan DbValue.null = err null_value
scan (DbValue.string s) = new_currency s
scan (DbValue.bytes s) = new_currency s
scan (DbValue.int64 _) = err invalid_format
scan (DbValue.float64 _) = err invalid_format
scan DbValue.other = err invalid_format
