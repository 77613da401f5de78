-- ===== src/Portal/Billing/ClusterLines.antt =====
-- `_emit_synthetic_cluster_lines` (customer-portal/app/billing_runner.py): the state is the list of
-- rows that were written. The three queries' results are parameters; a time is a number.
pub mod Billed
use openstack_keystone.Prelude.{
  ℕ, ◌-◌, String, Bool, true, false, not, ◌&&◌, Option, none, some, List, [], ◌∷◌, ◌++◌, concat,
  contains, truthy, eqb, leb, ltb, if◌then◌else◌,
}
use openstack_keystone.Exec.{
  exception, Result, ok, err, Exec, pure, raise, lift, modify, ◌>>=◌, ◌>>◌, for_each, if_found,
}
use openstack_keystone.Dict.{Dict, lookup}
use openstack_keystone.Portal.Numbers.{Decimals, pos}
use openstack_keystone.Portal.Billing.Prices.{
  ResourcePrice, IdDict, find_price, price_after_override_and_rebate,
}
use openstack_keystone.Portal.Billing.Fees.{cluster_management_fee}

pub record Row : Type 0 where
  pub customer : String
  pub contract_number : String
  pub project : String
  pub label : String
  pub quantity : String
  pub unit : String
  pub cost : String

-- The columns of `TenantCluster` that the lines read; `provisioned_at` is set in all of them.
pub record Cluster : Type 0 where
  pub contract_id : ℕ
  pub slug : String
  pub worker_groups : ℕ
  pub initial_worker_groups : ℕ
  pub provisioned_at : ℕ

-- The payload of an applied resize: none where it is not JSON, else its two numbers.
pub record Resize : Type 0 where
  pub cluster : Cluster
  pub payload : Option (Option ℕ × Option ℕ)

pub record Addon : Type 0 where
  pub cluster : Cluster
  pub addon_type : String

-- The arguments: the period, the contracts of the report, the tables, and the rows that the three
-- queries select; and the numbers.
pub record Report (D : Type 0) : Type 0 where
  pub decimals : Decimals D
  pub decimal : String → Option ℕ
  pub period_start : ℕ
  pub period_end : ℕ
  pub contract_set : List String
  pub prices : List (ResourcePrice D)
  pub contract_overrides : IdDict (Dict D)
  pub rebates : IdDict D
  pub contract_ids : Dict ℕ
  pub contract_customers : Dict String
  pub clusters : List Cluster
  pub resizes : List Resize
  pub addons : List Addon

-- `{v: k for k, v in contract_id_map.items()}.get(i)`: a later item wins
unfoldable pub number_of : ℕ → Dict ℕ → Option String
number_of i [] = none
number_of i ((number, j) ∷ d) = elim (number_of i d) [
  | some n ↦ some n
  | none ↦ if eqb j i then some number else none
]

module _ {D : Type 0} (report : Report D) where
  open report use {decimals, decimal, period_start, period_end, contract_set}

  -- `cn` and the customer's name, or nothing where the contract is not billed
  unfoldable pub billed_contract : ℕ → Result (Option (String × String))
  unfolding lookup number_of
  billed_contract contract_id = elim (number_of contract_id report.contract_ids) [
    | none ↦ ok none
    | some cn ↦
        if truthy cn && contains cn contract_set
        then (elim (lookup cn report.contract_customers) [
          | none ↦ err (exception (concat "No customer found for contract " cn))
          | some customer ↦ ok (some (cn, customer))
        ])
        else ok none
  ]

  -- the unit price for the cluster's contract
  unfoldable pub contract_price : D → String → Cluster → D
  unfolding price_after_override_and_rebate
  contract_price base_price resource_type cluster =
      price_after_override_and_rebate decimals base_price resource_type (some cluster.contract_id)
        report.contract_overrides report.rebates

  -- `writer.writerow`
  unfoldable pub writerow :
      String × String → Cluster → String → String → String → D → Exec (List Row) Unit
  writerow billed cluster label quantity unit cost = modify λ rows.
      rows
      ++ record {
        customer = billed.1;
        contract_number = billed.0;
        project = concat "managed-cluster:" cluster.slug;
        label = label;
        quantity = quantity;
        unit = unit;
        cost = decimals.rounded cost;
      }
        ∷ []

  -- 1. the package management fee
  unfoldable pub management_line : String × String → Cluster → Exec (List Row) Unit
  unfolding contract_price
  management_line billed cluster = do
    fee ← lift (cluster_management_fee decimals decimal report.prices cluster.worker_groups)
    writerow billed cluster "Cluster management fee" "1" fee.1
        (contract_price fee.0 "cluster_management_fee" cluster)

  unfoldable pub setup_price : String → Option (ResourcePrice D)
  unfolding find_price
  setup_price group_type =
      find_price report.prices "cluster_setup_fee" (("group_type", group_type) ∷ [])

  unfoldable pub controller_line :
      String × String → Cluster → ResourcePrice D → Exec (List Row) Unit
  unfolding contract_price
  controller_line billed cluster ctrl =
      writerow billed cluster "Controller setup fee" "1" ctrl.unit
        (contract_price ctrl.unit_price "cluster_setup_fee" cluster)

  -- a fee for a number of worker groups
  unfoldable pub worker_line :
      String × String → Cluster → String → ℕ → ResourcePrice D → Exec (List Row) Unit
  unfolding contract_price
  worker_line billed cluster label qty wkr =
      writerow billed cluster label (decimals.without_fraction (decimals.of_int (pos qty))) wkr.unit
        (decimals.multiply (decimals.of_int (pos qty))
          (contract_price wkr.unit_price "cluster_setup_fee" cluster))

  -- 2. the initial setup fees, in the period in which the cluster was provisioned
  unfoldable pub setup_lines : String × String → Cluster → Exec (List Row) Unit
  unfolding setup_price
  setup_lines billed cluster =
      if leb period_start cluster.provisioned_at && ltb cluster.provisioned_at period_end
      then (do
        if_found (setup_price "controllers") (controller_line billed cluster)
        if ltb 0 cluster.initial_worker_groups
            then if_found (setup_price "workers") (
                worker_line billed cluster
                  (concat "Worker setup fee (initial, "
                    (concat (decimals.str cluster.initial_worker_groups) " groups)"))
                  cluster.initial_worker_groups)
            else pure tt)
      else pure tt

  unfoldable pub cluster_lines : Cluster → Exec (List Row) Unit
  cluster_lines cluster = do
    found ← lift (billed_contract cluster.contract_id)
    if_found found (λ billed. management_line billed cluster >> setup_lines billed cluster)

  unfoldable pub growth_line :
      String × String → Cluster → ResourcePrice D → ℕ × ℕ → Exec (List Row) Unit
  growth_line billed cluster wkr (before, target) =
      if leb target before
      then pure tt
      else worker_line billed cluster
          (concat "Worker setup fee (expansion, +"
            (concat (decimals.str (target - before)) " groups)"))
          (target - before) wkr

  -- `before` and `target`, where both are there
  unfoldable pub both_numbers : Option (Option ℕ × Option ℕ) → Option (ℕ × ℕ)
  both_numbers none = none
  both_numbers (some (none, target)) = none
  both_numbers (some (some before, none)) = none
  both_numbers (some (some before, some target)) = some (before, target)

  -- 3. the fee for an expansion
  unfoldable pub resize_line : ResourcePrice D → Resize → Exec (List Row) Unit
  unfolding both_numbers
  resize_line wkr resize = do
    found ← lift (billed_contract resize.cluster.contract_id)
    if_found found
        λ billed. if_found (both_numbers resize.payload) (growth_line billed resize.cluster wkr)

  unfoldable pub addon_price_line : String × String → Addon → ResourcePrice D → Exec (List Row) Unit
  unfolding contract_price
  addon_price_line billed addon price =
      writerow billed addon.cluster (concat "Addon: " addon.addon_type) "1" price.unit
        (contract_price price.unit_price "cluster_addon_fee" addon.cluster)

  -- 4. an add-on
  unfoldable pub addon_line : Addon → Exec (List Row) Unit
  unfolding find_price
  addon_line addon = do
    found ← lift (billed_contract addon.cluster.contract_id)
    if_found found λ billed.
        if_found (find_price report.prices "cluster_addon_fee" (("addon", addon.addon_type) ∷ []))
          (addon_price_line billed addon)

  -- `_emit_synthetic_cluster_lines`; without a price for workers the loop over resizes stops at once
  unfoldable pub emit_synthetic_cluster_lines : Exec (List Row) Unit
  unfolding setup_price
  emit_synthetic_cluster_lines = do
    for_each report.clusters cluster_lines
    if_found (setup_price "workers") (λ wkr. for_each report.resizes (resize_line wkr))
    for_each report.addons addon_line
