-- ===== src/Portal/Billing/ClusterLines/Billed.antt =====
-- Whose lines `_emit_synthetic_cluster_lines` writes.
use openstack_keystone.Prelude.{
  ℕ, String, ◌≡◌, refl, ◌∙◌, ap, true, ◌&&◌, Option, none, some, List, concat, contains, truthy,
  All, All-append, Bool-cases, Option-cases, inl, inr, arith,
}
use openstack_keystone.Exec.{Error, exception, Result, ok, err, Exec, lift, modify, ◌>>=◌, if_found}
use openstack_keystone.Exec.Keeps.{Keeps, Keeps-bind, Keeps-bind-lift, Keeps-if_found, keeps_rules}
use openstack_keystone.Dict.{lookup}
use openstack_keystone.Portal.Billing.Prices.{ResourcePrice}
use openstack_keystone.Portal.Billing.ClusterLines.{
  Row, Cluster, Resize, Addon, Report, number_of, billed_contract, writerow, management_line,
  controller_line, worker_line, setup_lines, cluster_lines, growth_line, resize_line,
  addon_price_line, addon_line, emit_synthetic_cluster_lines,
}

-- The row is for a contract of the report, and names its customer.
pub record IsBilled {D : Type 0} (report : Report D) (r : Row) : Type 0 where
  pub in_report : contains r.contract_number report.contract_set ≡ true
  pub has_customer : lookup r.contract_number report.contract_customers ≡ some r.customer

module _ {D : Type 0} (report : Report D) where
  abbrev Billed : List Row → Type 0
  Billed rows = All (IsBilled report) rows

  -- a contract with its customer
  record IsContract (b : String × String) : Type 0 where
    is_wanted : contains b.0 report.contract_set ≡ true
    is_known : lookup b.0 report.contract_customers ≡ some b.1

  billed_contract_lem :
      (contract_id : ℕ) (b : String × String)
      → billed_contract report contract_id ≡ ok (some b)
      → IsContract b
  unfolding billed_contract
  billed_contract_lem contract_id b h =
      elim (Option-cases (number_of contract_id report.contract_ids)) [
        | inl e ↦ absurd (not_found _ (rw (e, billed_contract) refl) h)
        | inr (cn, e) ↦ elim (Bool-cases (truthy cn && contains cn report.contract_set)) [
          | inl wanted ↦ elim (Option-cases (lookup cn report.contract_customers)) [
            | inl missing ↦ absurd (
                not_raised (exception (concat "No customer found for contract " cn)) _
                  (rw (e, billed_contract) (rw wanted (rw missing refl))) h)
            | inr (customer, found) ↦
                rw
                  (← same_pair (cn, customer) _
                    (rw (e, billed_contract) (rw wanted (rw found refl))) h)
                  (record { is_wanted = ground (arith, wanted); is_known = found })
          ]
          | inr other ↦ absurd (not_found _ (rw (e, billed_contract) (rw other refl)) h)
        ]
      ]
    where
      not_found : (r : Result (Option (String × String))) → r ≡ ok none → r ≡ ok (some b) → ⊥
      not_found r h k = cc

      not_raised :
          (x : Error) (r : Result (Option (String × String))) → r ≡ err x → r ≡ ok (some b) → ⊥
      not_raised x r h k = cc

      same_pair :
          (a : String × String) (r : Result (Option (String × String)))
          → r ≡ ok (some a)
          → r ≡ ok (some b)
          → a ≡ b
      same_pair a r h k = cc

  writerow-Keeps :
      (b : String × String) (cluster : Cluster) (label quantity unit : String) (cost : D)
      → IsContract b
      → Keeps Billed (writerow report b cluster label quantity unit cost)
  unfolding writerow modify
  writerow-Keeps b cluster label quantity unit cost k = record {
    at = λ rows h.
        All-append _ rows _ h (record { in_report = k.is_wanted; has_customer = k.is_known }, tt);
  }

  worker_line-Keeps :
      (b : String × String) (cluster : Cluster) (label : String) (n : ℕ) (wkr : ResourcePrice D)
      → IsContract b
      → Keeps Billed (worker_line report b cluster label n wkr)
  unfolding worker_line
  worker_line-Keeps b cluster label n wkr k = writerow-Keeps b cluster label _ _ _ k

  management_line-Keeps :
      (b : String × String) (cluster : Cluster)
      → IsContract b
      → Keeps Billed (management_line report b cluster)
  unfolding management_line
  management_line-Keeps b cluster k = search (keeps_rules, writerow-Keeps)

  controller_line-Keeps :
      (b : String × String) (cluster : Cluster) (ctrl : ResourcePrice D)
      → IsContract b
      → Keeps Billed (controller_line report b cluster ctrl)
  unfolding controller_line
  controller_line-Keeps b cluster ctrl k = writerow-Keeps b cluster _ _ _ _ k

  setup_lines-Keeps :
      (b : String × String) (cluster : Cluster)
      → IsContract b
      → Keeps Billed (setup_lines report b cluster)
  unfolding setup_lines
  setup_lines-Keeps b cluster k =
      search (keeps_rules, worker_line-Keeps, controller_line-Keeps) depth 9

  -- The lines for a contract, where it is billed.
  for_contract :
      (contract_id : ℕ) (f : String × String → Exec (List Row) Unit)
      → ((b : String × String) → IsContract b → Keeps Billed (f b))
      → Keeps Billed (lift (billed_contract report contract_id) >>= λ found. if_found found f)
  for_contract contract_id f k = Keeps-bind-lift (billed_contract report contract_id) _ λ found e.
      Keeps-if_found found f λ b is. k b (billed_contract_lem contract_id b (e ∙ ap ok is))

  cluster_lines-Keeps : (cluster : Cluster) → Keeps Billed (cluster_lines report cluster)
  unfolding cluster_lines
  cluster_lines-Keeps cluster =
      for_contract cluster.contract_id _ λ b k.
        Keeps-bind _ _ (management_line-Keeps b cluster k) (λ _. setup_lines-Keeps b cluster k)

  growth_line-Keeps :
      (b : String × String) (cluster : Cluster) (wkr : ResourcePrice D) (n : ℕ × ℕ)
      → IsContract b
      → Keeps Billed (growth_line report b cluster wkr n)
  unfolding growth_line
  growth_line-Keeps b cluster wkr n k = search (keeps_rules, worker_line-Keeps)

  resize_line-Keeps :
      (wkr : ResourcePrice D) (resize : Resize) → Keeps Billed (resize_line report wkr resize)
  unfolding resize_line
  resize_line-Keeps wkr resize =
      for_contract resize.cluster.contract_id _
        λ b k. Keeps-if_found _ _ (λ n _. growth_line-Keeps b resize.cluster wkr n k)

  addon_line-Keeps : (addon : Addon) → Keeps Billed (addon_line report addon)
  unfolding addon_line addon_price_line
  addon_line-Keeps addon =
      for_contract addon.cluster.contract_id _
        λ b k. Keeps-if_found _ _ (λ price _. writerow-Keeps b addon.cluster _ _ _ _ k)

  -- Whether the lines for clusters are written to the end or an exception stops them, every row
  -- that they add is for a contract of the report, and names that contract's customer.
  pub emit_synthetic_cluster_lines-Keeps :
      Keeps (All (IsBilled report)) (emit_synthetic_cluster_lines report)
  unfolding emit_synthetic_cluster_lines
  emit_synthetic_cluster_lines-Keeps =
      search (keeps_rules, cluster_lines-Keeps, resize_line-Keeps, addon_line-Keeps) depth 9
