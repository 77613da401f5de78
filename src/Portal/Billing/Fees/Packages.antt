-- ===== src/Portal/Billing/Fees/Packages.antt =====
-- What `_cluster_management_fee` charges.
use openstack_keystone.Prelude.{
  ℕ, ◌-◌, ◌≤◌, ◌<◌, String, ◌≡◌, refl, ◌∙◌, true, false, Option, none, some, List, [], ◌∷◌, ltb,
  leb, All, All-Elem, All-of_Elem, Elem, ap, arith,
}
use openstack_keystone.Exec.{Result, ok}
use openstack_keystone.Portal.Numbers.{Decimals, pos, difference}
use openstack_keystone.Portal.Billing.Prices.{ResourcePrice, find_price}
use openstack_keystone.Portal.Billing.Fees.{
  Package, packages, sort_packages, package_for, last_package, extended_fee, fee_from,
  cluster_management_fee,
}
use openstack_keystone.Portal.Billing.Fees.Sorting.{
  AtMost, Sorted, package_for-sort_packages, sort_packages-Sorted, last_package-AtMost,
  last_package-Elem, All-sort_packages, Elem-sort_packages, insert_package-cons,
}

module _ {D : Type 0} (d : Decimals D) (decimal : String → Option ℕ)
    (prices : List (ResourcePrice D)) (n : ℕ) where
  listed_fee :
      (l : List (Package D)) (price : ResourcePrice D)
      → package_for n l ≡ some price
      → fee_from d prices n l ≡ ok (price.unit_price, price.unit)
  unfolding fee_from
  listed_fee [] price h = cc
  listed_fee (p ∷ l) price h = rw (h, fee_from) refl

  -- A cluster with as many worker groups as a package costs what the first such package in the
  -- price list costs, wherever it stands and whatever the other packages are.
  pub cluster_management_fee-package_for :
      (price : ResourcePrice D)
      → package_for n (packages decimal prices) ≡ some price
      → cluster_management_fee d decimal prices n ≡ ok (price.unit_price, price.unit)
  unfolding cluster_management_fee
  cluster_management_fee-package_for price h =
      listed_fee (sort_packages (packages decimal prices)) price
        (package_for-sort_packages n (packages decimal prices) ∙ h)

  -- Every package is for fewer worker groups than the cluster has.
  abbrev pub AllBelow : List (Package D) → Type 0
  AllBelow l = All (λ q. q.0 < n) l

  package_for-none : (l : List (Package D)) → AllBelow l → package_for n l ≡ none
  unfolding package_for
  package_for-none [] h = refl
  package_for-none (q ∷ l) h = ground (arith, h.0, package_for-none l h.1)

  largest_fee :
      (p : Package D) (l : List (Package D)) (increment : ResourcePrice D)
      → AllBelow (p ∷ l)
      → find_price prices "cluster_management_fee_increment" [] ≡ some increment
      → let largest = last_package p l in
        fee_from d prices n (p ∷ l)
        ≡ ok (
          d.add largest.1.unit_price
              (d.multiply (d.of_int (pos (n - largest.0))) increment.unit_price),
          largest.1.unit,
        )
  unfolding fee_from extended_fee difference
  largest_fee p l increment below h =
      let small : ltb n p.0 ≡ false = ground (arith, below.0) in
      let last : (last_package p l).0 < n =
        All-Elem (λ (q : Package D). q.0 < n) (p ∷ l) below (last_package-Elem p l) in
      let more : leb (last_package p l).0 n ≡ true = ground (arith, last) in
      rw (package_for-none (p ∷ l) below, small, h, more, fee_from) refl

  -- the largest package and the fee that extends it
  abbrev pub Extends : List (Package D) → ResourcePrice D → Result (D × String) → Type 0
  Extends l increment fee =
      (largest : Package D) × Elem largest l
      × AtMost largest.0 l
      × (fee
          ≡ ok (
            d.add largest.1.unit_price
                (d.multiply (d.of_int (pos (n - largest.0))) increment.unit_price),
            largest.1.unit,
          ))

  Sorted-fee :
      (s : List (Package D)) (p : Package D) (l : List (Package D)) (increment : ResourcePrice D)
      → s ≡ p ∷ l
      → Sorted s
      → AllBelow s
      → find_price prices "cluster_management_fee_increment" [] ≡ some increment
      → Extends s increment (fee_from d prices n s)
  Sorted-fee s p l increment e sorted below h =
      let sorted' : Sorted (p ∷ l) = rw e at sorted in
      let below' : AllBelow (p ∷ l) = rw e at below in
      rw e (
        last_package p l,
        last_package-Elem p l,
        last_package-AtMost p l sorted',
        largest_fee p l increment below' h,
      )

  -- A cluster with more worker groups than any package, where there are packages and an increment,
  -- costs the price of the largest package and the increment for each further group.
  pub cluster_management_fee-Extends :
      (q : Package D) (rest : List (Package D)) (increment : ResourcePrice D)
      → packages decimal prices ≡ q ∷ rest
      → AllBelow (packages decimal prices)
      → find_price prices "cluster_management_fee_increment" [] ≡ some increment
      → Extends (packages decimal prices) increment (cluster_management_fee d decimal prices n)
  unfolding cluster_management_fee sort_packages
  cluster_management_fee-Extends q rest increment e below h =
      let s : List (Package D) = sort_packages (packages decimal prices) in
      let (p, l, cons) = insert_package-cons q (sort_packages rest) in
      let below_sorted : AllBelow s =
        All-of_Elem (λ (x : Package D). x.0 < n) s
          λ x m.
            All-Elem (λ (x : Package D). x.0 < n) (packages decimal prices) below
              (Elem-sort_packages x (packages decimal prices) m) in
      let (largest, m, most, fee) =
        Sorted-fee s p l increment (ap sort_packages e ∙ cons)
          (sort_packages-Sorted (packages decimal prices)) below_sorted h in
      (
        largest,
        Elem-sort_packages largest (packages decimal prices) m,
        All-sort_packages (λ (x : Package D). x.0 ≤ largest.0) (packages decimal prices) most,
        fee,
      )
