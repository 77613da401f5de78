-- ===== src/Portal/Billing/Csv.antt =====
-- `generate_billing_csv` (customer-portal/app/billing_runner.py), up to the text of the file: the state
-- has the service that is queried, and the rows that were written.
pub mod Billed
use openstack_keystone.Prelude.{
  ℕ, String, Bool, true, false, not, Option, none, some, List, [], ◌∷◌, ◌++◌, map, filter, contains,
  present, or_else, is_some, concat, ◌==◌, if◌then◌else◌,
}
use openstack_keystone.Exec.{
  exception, Result, ok, err, Exec, pure, raise, lift, gets, modify, ◌>>=◌, ◌>>◌, for_each,
}
use openstack_keystone.Dict.{Dict, lookup, insert, has}
use openstack_keystone.Portal.Numbers.{Decimals, pos, discounted}
use openstack_keystone.Portal.Billing.Prices.{
  ResourcePrice, IdDict, find_price, of_contract, overridden, rebated,
}
use openstack_keystone.Portal.Billing.ClusterLines.{Row, Report, emit_synthetic_cluster_lines}
use openstack_keystone.Portal.Billing.Usage.{Usage, canonicalize_volume_usage}
use openstack_keystone.Portal.Billing.Contracts.{TaggedProject, get_project_contracts}
use openstack_keystone.Portal.Billing.Products.{
  Product, gnocchi_product_registry, cinder_metric_family_markers, synthetic_resource_types,
}
use openstack_keystone.Portal.Billing.Measures.{Stamp, Period}
use openstack_keystone.Portal.Billing.Query.{
  Aggregates, sorted_set, metadata_fields_of, query_gnocchi_usage,
}
use openstack_keystone.Portal.Billing.Search.{Response, project_had_gnocchi_resources}

-- The services: the lists of Keystone and Cinder, the requests to Gnocchi for a resource type and a
-- metric, and the library's functions on texts.
pub record Cloud (D W : Type 0) : Type 0 where
  pub list_projects : Exec W (List TaggedProject)
  pub volume_type_names : Exec W (Dict String)
  pub aggregates : String → String → List String → String → Exec W (Aggregates D)
  pub search : String → String → String → Option String → Exec W Response
  pub parse : String → Stamp
  pub strip : String → String

pub record Writing (W : Type 0) : Type 0 where
  pub service : W
  pub rows : List Row

module _ {W : Type 0} where
  unfoldable pub on_service : {A : Type 0} → Exec W A → Exec (Writing W) A
  on_service m s = let (r, w) = m s.service in (r, record s { service = w })

  unfoldable pub on_rows : {A : Type 0} → Exec (List Row) A → Exec (Writing W) A
  on_rows m s = let (r, rows) = m s.rows in (r, record s { rows = rows })

-- `metric_metadata_fields` after one price
unfoldable pub note_field : {D : Type 0} → Dict (List String) → ResourcePrice D → Dict (List String)
unfolding lookup insert
note_field fields p =
    if present p.metadata_field
    then insert p.resource_type
        (or_else p.metadata_field "" ∷ or_else (lookup p.resource_type fields) []) fields
    else if has p.resource_type fields
    then fields
    else insert p.resource_type [] fields

unfoldable pub fields_of_prices :
    {D : Type 0} → Dict (List String) → List (ResourcePrice D) → Dict (List String)
unfolding note_field
fields_of_prices fields [] = fields
fields_of_prices fields (p ∷ prices) = fields_of_prices (note_field fields p) prices

unfoldable pub note_overrides : {D : Type 0} → Dict (List String) → Dict D → Dict (List String)
unfolding lookup insert
note_overrides fields [] = fields
note_overrides fields ((resource_type, price) ∷ overrides) =
    note_overrides (if has resource_type fields then fields else insert resource_type [] fields)
      overrides

unfoldable pub fields_of_overrides :
    {D : Type 0} → Dict (List String) → IdDict (Dict D) → Dict (List String)
unfolding note_overrides
fields_of_overrides fields [] = fields
fields_of_overrides fields ((contract_id, overrides) ∷ more) =
    fields_of_overrides (note_overrides fields overrides) more

-- `", ".join(…)`
unfoldable pub join : List String → String
join [] = ""
join (s ∷ []) = s
join (s ∷ t ∷ more) = concat s (concat ", " (join (t ∷ more)))

unfoldable pub label_of : String → Dict String → String
unfolding join
label_of metric [] = metric
label_of metric (item ∷ metadata) =
    concat metric
      (concat " (" (concat (join (map (λ (i : String × String). i.1) (item ∷ metadata))) ")"))

module _ {D W : Type 0} (report : Report D) (period : Period D) (cloud : Cloud D W) where
  open report use {decimals, contract_set}

  unfoldable pub quantity_of : Product → Usage D → D
  quantity_of product entry = elim product.size_gb_divisor [
    | none ↦ entry.hours
    | some n ↦
        decimals.multiply entry.size_months
          (decimals.divide (decimals.of_int (pos 1)) (decimals.of_int (pos n)))
  ]

  unfoldable pub cost_of : String → Product → String → Usage D → ResourcePrice D → D
  unfolding lookup quantity_of
  cost_of cn product metric entry price =
      let contract_id = lookup cn report.contract_ids in
      rebated decimals
        (decimals.multiply (quantity_of product entry)
          (overridden price.unit_price metric (of_contract contract_id report.contract_overrides)))
        (of_contract contract_id report.rebates)

  unfoldable pub write_usage :
      String × String → String → Product → String → Usage D → ResourcePrice D → Exec (List Row) Unit
  unfolding cost_of label_of
  write_usage (cn, customer) project_name product metric entry price = modify λ rows.
      rows
      ++ record {
        customer = customer;
        contract_number = cn;
        project = project_name;
        label = label_of metric entry.metadata;
        quantity = decimals.two_digits (quantity_of product entry);
        unit = price.unit;
        cost = decimals.rounded (cost_of cn product metric entry price);
      }
        ∷ []

  unfoldable pub price_usage :
      String × String → String → Product → String → Usage D → Exec (List Row) Unit
  unfolding find_price
  price_usage billed project_name product metric entry =
      elim (find_price report.prices metric entry.metadata) [
        | none ↦ raise (exception (concat "No price for project " project_name))
        | some price ↦ write_usage billed project_name product metric entry price
      ]

  -- the contract with its customer's name
  unfoldable pub with_customer : String → Result (String × String)
  unfolding lookup
  with_customer cn = elim (lookup cn report.contract_customers) [
    | none ↦ err (exception (concat "No customer found for contract " cn))
    | some customer ↦ ok (cn, customer)
  ]

  unfoldable pub bill_usage : Product → String → Usage D → String × String → Exec (List Row) Unit
  bill_usage product metric entry (project_name, cn) =
      if contains cn contract_set
      then (do
        billed ← lift (with_customer cn)
        price_usage billed project_name product metric entry)
      else pure tt

  -- the row of one entry
  unfoldable pub usage_line :
      Dict (String × String) → Product → String → Usage D → Exec (List Row) Unit
  unfolding lookup
  usage_line project_contracts product metric entry =
      elim (lookup entry.project_id project_contracts) [
        | none ↦ pure tt
        | some contract ↦ bill_usage product metric entry contract
      ]

  -- `project_ids`
  unfoldable pub billed_ids : Dict (String × String) → List String
  billed_ids project_contracts =
      map (λ (p : String × (String × String)). p.0)
        (filter (λ (p : String × (String × String)). contains p.1.1 contract_set) project_contracts)

  unfoldable pub query_product : Product → List String → List String → Exec W (List (Usage D))
  unfolding metadata_fields_of lookup
  query_product product groupby project_ids =
      query_gnocchi_usage decimals cloud.parse period product.source_metric
        (metadata_fields_of groupby)
        (cloud.aggregates product.resource_type product.source_metric groupby)
        (λ project_id.
          project_had_gnocchi_resources cloud.strip
            (if product.resource_type == "volume"
              then lookup product.source_metric cinder_metric_family_markers
              else none)
            (cloud.search product.resource_type product.source_metric project_id))
        project_ids

  -- the names of volume types, where there is usage of volumes; no other product needs them
  unfoldable pub canonical_usage : String → List (Usage D) → Exec W (List (Usage D))
  canonical_usage metric [] = pure []
  canonical_usage metric (entry ∷ usage) =
      if metric == "volume.size"
      then (do
        type_names ← cloud.volume_type_names
        lift (canonicalize_volume_usage decimals (entry ∷ usage) type_names))
      else pure (entry ∷ usage)

  unfoldable pub product_lines :
      Dict (String × String) → String → List String → Product → Exec (Writing W) Unit
  unfolding sorted_set billed_ids
  product_lines project_contracts metric fields product = do
    usage ← on_service (
        query_product product (sorted_set (fields ++ product.metadata_fields))
          (billed_ids project_contracts))
    canonical ← on_service (canonical_usage metric usage)
    on_rows (for_each canonical (usage_line project_contracts product metric))

  unfoldable pub metric_lines :
      Dict (String × String) → String × List String → Exec (Writing W) Unit
  unfolding lookup
  metric_lines project_contracts (metric, fields) =
      if contains metric synthetic_resource_types
      then pure tt
      else elim (lookup metric gnocchi_product_registry) [
        | none ↦ raise (exception (concat "Unsupported metered billing resource type: " metric))
        | some product ↦ product_lines project_contracts metric fields product
      ]

  -- the rows of `generate_billing_csv`
  unfoldable pub billing_rows : Exec (Writing W) Unit
  unfolding fields_of_prices fields_of_overrides
  billing_rows = do
    projects ← on_service cloud.list_projects
    project_contracts ← lift (get_project_contracts projects)
    for_each (fields_of_overrides (fields_of_prices [] report.prices) report.contract_overrides)
        (metric_lines project_contracts)
    on_rows (emit_synthetic_cluster_lines report)
