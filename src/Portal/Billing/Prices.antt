-- ===== src/Portal/Billing/Prices.antt =====
-- `_find_price` and `_price_after_override_and_rebate` (customer-portal/app/billing_runner.py).
pub mod Reference
use openstack_keystone.Prelude.{
  ℕ, String, Bool, true, false, not, ◌&&◌, Option, none, some, List, [], ◌∷◌, present, ◌==◌, eqb,
  if◌then◌else◌,
}
use openstack_keystone.Dict.{Dict, lookup}
use openstack_keystone.Portal.Numbers.{Decimals, discounted}

-- The columns of `ResourcePrice` that the reports read.
pub record ResourcePrice (D : Type 0) : Type 0 where
  pub resource_type : String
  pub unit_price : D
  pub unit : String
  pub metadata_field : Option String
  pub metadata_value : Option String

-- A dict whose keys are IDs, in insertion order.
abbrev pub IdDict : Type 0 → Type 0
IdDict V = List (ℕ × V)

unfoldable pub lookup_id : {V : Type 0} → ℕ → IdDict V → Option V
lookup_id i [] = none
lookup_id i ((j, v) ∷ d) = if eqb j i then some v else lookup_id i d

-- `contract_id and contract_id in d`, with the value
unfoldable pub of_contract : {V : Type 0} → Option ℕ → IdDict V → Option V
unfolding lookup_id
of_contract none d = none
of_contract (some i) d = if eqb i 0 then none else lookup_id i d

-- `metadata.get(field) == value`
unfoldable pub has_value : Dict String → Option String → Option String → Bool
unfolding lookup
has_value metadata (some field) (some value) = elim (lookup field metadata) [
  | none ↦ false
  | some v ↦ v == value
]
has_value metadata (some field) none = false
has_value metadata none value = false

module _ {D : Type 0} where
  -- A price for one value of the metadata that the usage has.
  unfoldable pub is_specific : String → Dict String → ResourcePrice D → Bool
  unfolding has_value
  is_specific metric metadata p =
      p.resource_type == metric
      && ((present p.metadata_field && present p.metadata_value)
          && has_value metadata p.metadata_field p.metadata_value)

  unfoldable pub is_base : String → ResourcePrice D → Bool
  is_base metric p = p.resource_type == metric && not (present p.metadata_field)

  -- `base_match` after one round of the loop
  unfoldable pub base_after :
      String → Option (ResourcePrice D) → ResourcePrice D → Option (ResourcePrice D)
  unfolding is_base
  base_after metric base_match p = if is_base metric p then some p else base_match

  unfoldable pub find_price_from :
      Option (ResourcePrice D)
      → String
      → Dict String
      → List (ResourcePrice D)
      → Option (ResourcePrice D)
  unfolding is_specific base_after
  find_price_from base_match metric metadata [] = base_match
  find_price_from base_match metric metadata (p ∷ prices) =
      let rest = find_price_from (base_after metric base_match p) metric metadata prices in
      if is_specific metric metadata p then some p else rest

  -- `_find_price`
  unfoldable pub find_price :
      List (ResourcePrice D) → String → Dict String → Option (ResourcePrice D)
  unfolding find_price_from
  find_price prices metric metadata = find_price_from none metric metadata prices

  unfoldable pub overridden : D → String → Option (Dict D) → D
  unfolding lookup
  overridden base_price resource_type none = base_price
  overridden base_price resource_type (some overrides) = elim (lookup resource_type overrides) [
    | none ↦ base_price
    | some price ↦ price
  ]

  unfoldable pub rebated : Decimals D → D → Option D → D
  unfolding discounted
  rebated d price none = price
  rebated d price (some rebate) = discounted d price rebate

  -- `_price_after_override_and_rebate`
  unfoldable pub price_after_override_and_rebate :
      Decimals D → D → String → Option ℕ → IdDict (Dict D) → IdDict D → D
  unfolding of_contract overridden rebated
  price_after_override_and_rebate d base_price resource_type contract_id contract_overrides
        rebates =
      rebated d (overridden base_price resource_type (of_contract contract_id contract_overrides))
        (of_contract contract_id rebates)
