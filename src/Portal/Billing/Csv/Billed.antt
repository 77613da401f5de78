-- ===== src/Portal/Billing/Csv/Billed.antt =====
-- Whose rows the report has.
use openstack_keystone.Prelude.{
  String, ◌≡◌, ◌∙◌, ap, sym, true, some, List, contains, All, All-append, Option-cases, inl, inr,
}
use openstack_keystone.Exec.{Error, ok, err, Exec, modify}
use openstack_keystone.Exec.Keeps.{
  Keeps, Keeps-bind, Keeps-bind-lift, Keeps-if, Keeps-for_each, Keeps-pure, Keeps-raise,
  keeps_rules,
}
use openstack_keystone.Exec.Inversion.{ok-eq}
use openstack_keystone.Dict.{Dict, lookup}
use openstack_keystone.Portal.Billing.Prices.{ResourcePrice, find_price}
use openstack_keystone.Portal.Billing.ClusterLines.{Row, Report, emit_synthetic_cluster_lines}
use openstack_keystone.Portal.Billing.ClusterLines.Billed.{
  IsBilled, emit_synthetic_cluster_lines-Keeps,
}
use openstack_keystone.Portal.Billing.Usage.{Usage}
use openstack_keystone.Portal.Billing.Measures.{Period}
use openstack_keystone.Portal.Billing.Products.{Product, gnocchi_product_registry}
use openstack_keystone.Portal.Billing.Csv.{
  Cloud, Writing, on_service, on_rows, write_usage, price_usage, with_customer, bill_usage,
  usage_line, product_lines, metric_lines, billing_rows,
}

module _ {D W : Type 0} (report : Report D) (period : Period D) (cloud : Cloud D W) where
  abbrev Billed : List Row → Type 0
  Billed rows = All (IsBilled report) rows

  -- The rows that were written are billed.
  pub record Written (s : Writing W) : Type 0 where
    pub rows_billed : All (IsBilled report) s.rows

  on_service-Keeps : {A : Type 0} (m : Exec W A) → Keeps Written (on_service m)
  unfolding on_service
  on_service-Keeps m = record { at = λ s h. record { rows_billed = h.rows_billed } }

  on_rows-Keeps : {A : Type 0} (m : Exec (List Row) A) → Keeps Billed m → Keeps Written (on_rows m)
  unfolding on_rows
  on_rows-Keeps m k = record { at = λ s h. record { rows_billed = k.at s.rows h.rows_billed } }

  customer_lem :
      (cn : String) (b : String × String)
      → with_customer report period cloud cn ≡ ok b
      → (b.0 ≡ cn) × (lookup cn report.contract_customers ≡ some b.1)
  unfolding with_customer
  customer_lem cn b h = elim (Option-cases (lookup cn report.contract_customers)) [
    | inl e ↦ absurd (raised _ (rw (e, with_customer) at h))
    | inr (customer, e) ↦
        let same : (cn, customer) ≡ b = ok-eq (rw (e, with_customer) at h) in
        (ap (λ x. x.0) (sym same), e ∙ ap (λ x. some x.1) same)
  ]
    where
      raised : (x : Error) → err x ≡ ok b → ⊥
      raised x e = cc

  write_usage-Keeps :
      (b : String × String) (name : String) (product : Product) (metric : String) (entry : Usage D)
      (price : ResourcePrice D)
      → contains b.0 report.contract_set ≡ true
      → lookup b.0 report.contract_customers ≡ some b.1
      → Keeps Billed (write_usage report period cloud b name product metric entry price)
  unfolding write_usage modify
  write_usage-Keeps b name product metric entry price wanted known = record {
    at = λ rows h. All-append _ rows _ h (record { in_report = wanted; has_customer = known }, tt);
  }

  price_usage-Keeps :
      (b : String × String) (name : String) (product : Product) (metric : String) (entry : Usage D)
      → contains b.0 report.contract_set ≡ true
      → lookup b.0 report.contract_customers ≡ some b.1
      → Keeps Billed (price_usage report period cloud b name product metric entry)
  unfolding price_usage
  price_usage-Keeps b name product metric entry wanted known =
      elim (Option-cases (find_price report.prices metric entry.metadata)) [
        | inl e ↦ rw (e, price_usage) (Keeps-raise _)
        | inr (price, e) ↦
            rw (e, price_usage) (write_usage-Keeps b name product metric entry price wanted known)
      ]

  bill_usage-Keeps :
      (product : Product) (metric : String) (entry : Usage D) (contract : String × String)
      → Keeps Billed (bill_usage report period cloud product metric entry contract)
  unfolding bill_usage
  bill_usage-Keeps product metric entry (name, cn) =
      Keeps-if _ _ _
        (λ wanted. Keeps-bind-lift (with_customer report period cloud cn) _ λ b e.
          let (same, known) = customer_lem cn b e in
          price_usage-Keeps b name product metric entry
            (ap (λ x. contains x report.contract_set) same ∙ wanted)
            (ap (λ x. lookup x report.contract_customers) same ∙ known))
        (λ _. Keeps-pure tt)

  usage_line-Keeps :
      (contracts : Dict (String × String)) (product : Product) (metric : String) (entry : Usage D)
      → Keeps Billed (usage_line report period cloud contracts product metric entry)
  unfolding usage_line
  usage_line-Keeps contracts product metric entry =
      elim (Option-cases (lookup entry.project_id contracts)) [
        | inl e ↦ rw (e, usage_line) (Keeps-pure tt)
        | inr (contract, e) ↦ rw (e, usage_line) (bill_usage-Keeps product metric entry contract)
      ]

  product_lines-Keeps :
      (contracts : Dict (String × String)) (metric : String) (fields : List String)
      (product : Product)
      → Keeps Written (product_lines report period cloud contracts metric fields product)
  unfolding product_lines
  product_lines-Keeps contracts metric fields product = Keeps-bind _ _ (on_service-Keeps _) λ usage.
      Keeps-bind _ _ (on_service-Keeps _) λ canonical.
        on_rows-Keeps _ (Keeps-for_each canonical _ (usage_line-Keeps contracts product metric))

  metric_lines-Keeps :
      (contracts : Dict (String × String)) (m : String × List String)
      → Keeps Written (metric_lines report period cloud contracts m)
  unfolding metric_lines
  metric_lines-Keeps contracts (metric, fields) =
      elim (Option-cases (lookup metric gnocchi_product_registry)) [
        | inl e ↦ rw (e, metric_lines) (search keeps_rules)
        | inr (product, e) ↦
            let lines = product_lines-Keeps contracts metric fields product in
            rw (e, metric_lines) (search keeps_rules)
      ]

  -- Whether the report is written to the end or an exception stops it, every row of metered usage
  -- and every row for a cluster is for a contract of the report, and names its customer.
  pub billing_rows-Keeps : Keeps Written (billing_rows report period cloud)
  unfolding billing_rows
  billing_rows-Keeps =
      let clusters =
        on_rows-Keeps (emit_synthetic_cluster_lines report)
          (emit_synthetic_cluster_lines-Keeps report) in
      search (keeps_rules, on_service-Keeps, metric_lines-Keeps) depth 9
