-- ===== src/Portal/Examples/Usages.antt =====
-- The merging of usage, and a search of Gnocchi.
use openstack_keystone.Prelude.{ℕ, suc, ◌≤◌, String, ◌≡◌, refl, none, Option, List, [], ◌∷◌, arith}
use openstack_keystone.Exec.{ok, Exec}
use openstack_keystone.Portal.Billing.Usage.{Usage, Key, canonicalize_volume_usage}
use openstack_keystone.Portal.Billing.Usage.Totals.{
  total, tally, Distinct, Resolved, canonicalize_volume_usage-Adds,
}
use openstack_keystone.Portal.Billing.Search.{
  Response, items, max_pages, project_had_gnocchi_resources,
}
use openstack_keystone.Portal.Billing.Search.Pages.{search_from_requests}
use openstack_keystone.Portal.Examples.{whole}

abbrev volume : String → ℕ → Usage ℕ
volume volume_type hours = record {
  project_id = "p";
  metric = "volume.size";
  metadata = ("volume_type", volume_type) ∷ [];
  hours = hours;
  size_months = 1;
}

abbrev merged : List (Usage ℕ)
merged = record (volume "ssd" 7) { size_months = 2 } ∷ []

canonicalized :
    canonicalize_volume_usage whole (volume "t1" 3 ∷ volume "ssd" 4 ∷ []) (("t1", "ssd") ∷ [])
    ≡ ok merged
unfolding canonicalize_volume_usage
canonicalized = refl

canonicalize_volume_usage-Adds_example :
    (vs : List (Usage ℕ)) × Resolved whole
      (("t1", "ssd") ∷ [])
      (volume "t1" 3 ∷ volume "ssd" 4 ∷ [])
      vs
    × ((k : Key) → total whole k merged ≡ tally whole k none vs)
    × Distinct whole merged
canonicalize_volume_usage-Adds_example =
    canonicalize_volume_usage-Adds whole (volume "t1" 3 ∷ volume "ssd" 4 ∷ []) merged
      (("t1", "ssd") ∷ []) canonicalized

-- The state is the number of requests.
abbrev empty_page : Option String → Exec ℕ Response
empty_page marker n =
    (ok (record { content_length = 2; status_code = 200; body = items [] }), suc n)

search_from_requests_example : (project_had_gnocchi_resources (λ s. s) none empty_page 0).1 ≤ 100
unfolding project_had_gnocchi_resources
search_from_requests_example =
    search_from_requests (λ s. s) none empty_page (λ n. n) (λ m n. omega arith) max_pages 0
