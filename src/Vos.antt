-- ===== src/Vos.antt =====
-- pkg/vos: the value objects for currencies, money and percentages.
pub mod Currency
pub mod Float
pub mod Money
pub mod Percentage
mod Tests
use devkit_go.Prelude.{Result}

-- pkg/vos/errors.go.
pub data Error : Type 0 where
  invalid_currency : Error
  currency_mismatch : Error
  division_by_zero : Error
  invalid_value : Error
  overflow : Error
  negative_value : Error
  invalid_scale : Error
  invalid_format : Error
  null_value : Error
