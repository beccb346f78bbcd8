-- ===== src/Double.antt =====
-- What the code does with a `double`: a parameter, since the language leaves its arithmetic to the
-- machine. `six_decimals x` is the double that is read back from the text that `std::to_string`
-- writes for `x`, which has six digits behind the point.
pub mod Whole
use rokit_locator_qr_addon.Base.{ℕ, Bool}

pub record Double (D : Type 0) : Type 0 where
  pub nought : D
  pub minus_one : D
  pub of_ℕ : ℕ → D
  pub add : D → D → D
  pub sub : D → D → D
  pub mul : D → D → D
  pub div : D → D → D
  pub pow : D → D → D
  pub sqrt : D → D
  pub gt : D → D → Bool
  pub six_decimals : D → D
