-- ===== src/Portal/Examples/Reports.antt =====
-- Prices, fees and the lines for clusters.
use openstack_keystone.Prelude.{ℕ, ◌≡◌, refl, some, [], ◌∷◌, find, filter, arith}
use openstack_keystone.Exec.{ok}
use openstack_keystone.Portal.Billing.Prices.{is_specific, is_base, find_price}
use openstack_keystone.Portal.Billing.Prices.Reference.{otherwise, last_of, find_price-otherwise}
use openstack_keystone.Portal.Billing.Fees.{
  packages, package_of, decimal_value, package_for, cluster_management_fee,
}
use openstack_keystone.Portal.Billing.Fees.Packages.{
  Extends, cluster_management_fee-package_for, cluster_management_fee-Extends,
}
use openstack_keystone.Portal.Billing.ClusterLines.{Cluster, Report}
use openstack_keystone.Portal.Examples.{whole, number_in, package_price, increment, price_list}

find_price-otherwise_example :
    find_price price_list "cluster_management_fee" (("worker_groups", "1") ∷ [])
    ≡ otherwise
        (find (is_specific "cluster_management_fee" (("worker_groups", "1") ∷ [])) price_list)
        (last_of (filter (is_base "cluster_management_fee") price_list))
find_price-otherwise_example =
    find_price-otherwise "cluster_management_fee" (("worker_groups", "1") ∷ []) price_list

one_package : package_for 1 (packages number_in price_list) ≡ some (package_price "1" 100)
unfolding package_for packages package_of decimal_value
one_package = refl

cluster_management_fee-package_for_example :
    cluster_management_fee whole number_in price_list 1 ≡ ok (100, "month")
cluster_management_fee-package_for_example =
    cluster_management_fee-package_for whole number_in price_list 1 (package_price "1" 100)
      one_package

two_packages :
    packages number_in price_list ≡ (3, package_price "3" 300) ∷ (1, package_price "1" 100) ∷ []
unfolding packages package_of decimal_value
two_packages = refl

has_increment : find_price price_list "cluster_management_fee_increment" [] ≡ some increment
unfolding find_price
has_increment = refl

cluster_management_fee-Extends_example :
    Extends whole number_in price_list 5
      (packages number_in price_list)
      increment
      (cluster_management_fee whole number_in price_list 5)
unfolding packages package_of decimal_value
cluster_management_fee-Extends_example =
    cluster_management_fee-Extends whole number_in price_list 5 (3, package_price "3" 300)
      ((1, package_price "1" 100) ∷ []) increment two_packages (omega arith, (omega arith, tt))
      has_increment

abbrev cluster : Cluster
cluster = record {
  contract_id = 7;
  slug = "k8s";
  worker_groups = 5;
  initial_worker_groups = 1;
  provisioned_at = 12;
}

abbrev pub report : Report ℕ
report = record {
  decimals = whole;
  decimal = number_in;
  period_start = 10;
  period_end = 20;
  contract_set = "c7" ∷ [];
  prices = price_list;
  contract_overrides = [];
  rebates = [];
  contract_ids = ("c7", 7) ∷ ("c8", 8) ∷ [];
  contract_customers = ("c7", "Lab") ∷ [];
  clusters = cluster ∷ [];
  resizes = [];
  addons = [];
}
