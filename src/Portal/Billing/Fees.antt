-- ===== src/Portal/Billing/Fees.antt =====
-- `_cluster_management_fee` (customer-portal/app/billing_runner.py). `str.isdecimal` and `int` work by
-- the Unicode tables, so the number in a text is a parameter: none where the text is not decimal.
pub mod Sorting
pub mod Packages
use openstack_keystone.Prelude.{
  ℕ, String, Bool, true, false, ◌&&◌, Option, none, some, List, [], ◌∷◌, ◌==◌, eqb, ltb, leb,
  if◌then◌else◌,
}
use openstack_keystone.Exec.{exception, Result, ok, err}
use openstack_keystone.Portal.Numbers.{Decimals, difference}
use openstack_keystone.Portal.Billing.Prices.{ResourcePrice, find_price}

-- `o == t`, for an optional text
abbrev pub is_field : Option String → String → Bool
is_field none t = false
is_field (some s) t = s == t

-- A package: a number of worker groups, and its price.
abbrev pub Package : Type 0 → Type 0
Package D = ℕ × ResourcePrice D

unfoldable pub decimal_value : (String → Option ℕ) → Option String → Option ℕ
decimal_value decimal none = none
decimal_value decimal (some value) = decimal value

module _ {D : Type 0} where
  unfoldable pub package_of : (String → Option ℕ) → ResourcePrice D → Option ℕ
  unfolding decimal_value
  package_of decimal price =
      if price.resource_type == "cluster_management_fee"
        && is_field price.metadata_field "worker_groups"
      then decimal_value decimal price.metadata_value
      else none

  -- the comprehension
  unfoldable pub packages : (String → Option ℕ) → List (ResourcePrice D) → List (Package D)
  unfolding package_of
  packages decimal [] = []
  packages decimal (price ∷ prices) =
      let rest = packages decimal prices in
      elim (package_of decimal price) [ none ↦ rest | some n ↦ (n, price) ∷ rest ]

  -- `sort` by the number, which keeps the order of equal numbers
  unfoldable pub insert_package : Package D → List (Package D) → List (Package D)
  insert_package p [] = p ∷ []
  insert_package p (q ∷ l) =
      let rest = insert_package p l in if leb p.0 q.0 then p ∷ q ∷ l else q ∷ rest

  unfoldable pub sort_packages : List (Package D) → List (Package D)
  unfolding insert_package
  sort_packages [] = []
  sort_packages (p ∷ l) = insert_package p (sort_packages l)

  -- the loop over the sorted packages
  unfoldable pub package_for : ℕ → List (Package D) → Option (ResourcePrice D)
  package_for n [] = none
  package_for n ((m, price) ∷ l) =
      let rest = package_for n l in if eqb n m then some price else rest

  -- `package_prices[-1]`, after a first one
  unfoldable pub last_package : Package D → List (Package D) → Package D
  last_package p [] = p
  last_package p (q ∷ l) = last_package q l

  module _ (d : Decimals D) where
    -- beyond the packages: the largest one with increments
    unfoldable pub extended_fee : Package D → ℕ → Option (ResourcePrice D) → Result (D × String)
    extended_fee largest n none = err (exception "No managed-cluster package increment configured")
    extended_fee largest n (some increment) = ok (
      d.add largest.1.unit_price
          (d.multiply (d.of_int (difference n largest.0)) increment.unit_price),
      largest.1.unit,
    )

    -- the fee, from the sorted packages
    unfoldable pub fee_from : List (ResourcePrice D) → ℕ → List (Package D) → Result (D × String)
    unfolding package_for last_package extended_fee
    fee_from prices n [] = err (exception "No managed-cluster package prices configured")
    fee_from prices n (p ∷ l) = elim (package_for n (p ∷ l)) [
      | some price ↦ ok (price.unit_price, price.unit)
      | none ↦
          if ltb n p.0
          then err (exception "No managed-cluster package price for the worker groups")
          else extended_fee (last_package p l) n
              (find_price prices "cluster_management_fee_increment" [])
    ]

    -- `_cluster_management_fee`
    unfoldable pub cluster_management_fee :
        (String → Option ℕ) → List (ResourcePrice D) → ℕ → Result (D × String)
    unfolding packages sort_packages fee_from
    cluster_management_fee decimal prices n =
        fee_from prices n (sort_packages (packages decimal prices))
