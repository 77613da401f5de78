-- ===== src/Portal/Examples.antt =====
-- The portal on concrete inputs, with natural numbers for decimals.
mod Reports
mod Usages
mod Billings
use openstack_keystone.Prelude.{
  ℕ, ◌+◌, ◌-◌, ◌*◌, ◌/◌, String, none, some, List, [], ◌∷◌, Option, ◌==◌, eqb, true, false,
  if◌then◌else◌,
}
use openstack_keystone.Portal.Numbers.{ℤ, pos, negsuc, Decimals}
use openstack_keystone.Portal.Billing.Prices.{ResourcePrice}

abbrev pub of_integer : ℤ → ℕ
of_integer (pos n) = n
of_integer (negsuc n) = 0

abbrev pub whole : Decimals ℕ
whole = record {
  of_int = of_integer;
  add = λ a b. a + b;
  subtract = λ a b. a - b;
  multiply = λ a b. a * b;
  divide = λ a b. a / b;
  equal = λ a b. eqb a b;
  is_finite = λ a. true;
  is_negative = λ a. false;
  rounded = λ a. "0";
  without_fraction = λ a. "0";
  two_digits = λ a. "0";
  str = λ a. "0";
}

abbrev pub number_in : String → Option ℕ
number_in t = if t == "1" then some 1 else if t == "3" then some 3 else none

abbrev pub package_price : String → ℕ → ResourcePrice ℕ
package_price groups price = record {
  resource_type = "cluster_management_fee";
  unit_price = price;
  unit = "month";
  metadata_field = some "worker_groups";
  metadata_value = some groups;
}

abbrev pub increment : ResourcePrice ℕ
increment = record {
  resource_type = "cluster_management_fee_increment";
  unit_price = 10;
  unit = "month";
  metadata_field = none;
  metadata_value = none;
}

abbrev pub price_list : List (ResourcePrice ℕ)
price_list = package_price "3" 300 ∷ increment ∷ package_price "1" 100 ∷ []
