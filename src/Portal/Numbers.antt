-- ===== src/Portal/Numbers.antt =====
-- The numbers of the portal. Python's `Decimal` rounds by its context, on which nothing here depends,
-- so decimals are any type with the operations that the code uses; the integers are exact.
use openstack_keystone.Prelude.{ℕ, ◌-◌, String, Bool, leb, if◌then◌else◌}

pub data ℤ : Type 0 where
  pos : ℕ → ℤ
  negsuc : ℕ → ℤ

-- `a - b`
unfoldable pub difference : ℕ → ℕ → ℤ
difference a b = if leb b a then pos (a - b) else negsuc (b - a - 1)

-- `Decimal`, with its tests, and with `round(x)` and `f"{x:.0f}"` and `f"{x:.2f}"` as the texts that a row has, and `str` of an integer.
pub record Decimals (D : Type 0) : Type 0 where
  pub of_int : ℤ → D
  pub add : D → D → D
  pub subtract : D → D → D
  pub multiply : D → D → D
  pub divide : D → D → D
  pub equal : D → D → Bool
  pub is_finite : D → Bool
  pub is_negative : D → Bool
  pub rounded : D → String
  pub without_fraction : D → String
  pub two_digits : D → String
  pub str : ℕ → String

-- `price * (1 - rebate / 100)`
unfoldable pub discounted : {D : Type 0} → Decimals D → D → D → D
discounted d price rebate =
    d.multiply price (d.subtract (d.of_int (pos 1)) (d.divide rebate (d.of_int (pos 100))))
