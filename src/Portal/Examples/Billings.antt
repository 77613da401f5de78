-- ===== src/Portal/Examples/Billings.antt =====
-- A usage query and a whole report: one project, one volume, measured once.
use openstack_keystone.Prelude.{ℕ, String, ◌≡◌, refl, true, some, List, [], ◌∷◌, All, contains}
use openstack_keystone.Exec.{ok, ◌>>=◌}
use openstack_keystone.Exec.Keeps.{Keeps}
use openstack_keystone.Dict.{Dict, lookup}
use openstack_keystone.Portal.Billing.Usage.{Usage}
use openstack_keystone.Portal.Billing.Contracts.{TaggedProject, get_project_contracts}
use openstack_keystone.Portal.Billing.Contracts.Tagged.{IsTagged, get_project_contracts-IsTagged}
use openstack_keystone.Portal.Billing.Query.{
  Group, Aggregates, query_project, query_projects, query_all, query_gnocchi_usage,
}
use openstack_keystone.Portal.Billing.Measures.{aware, Measure, Period}
use openstack_keystone.Portal.Billing.Query.Requested.{query_gnocchi_usage-Requested}
use openstack_keystone.Portal.Billing.Search.{items}
use openstack_keystone.Portal.Billing.Csv.{Cloud, billing_rows}
use openstack_keystone.Portal.Billing.Csv.Billed.{Written, billing_rows-Keeps}
use openstack_keystone.Portal.Examples.{whole}
use openstack_keystone.Portal.Examples.Reports.{report}

abbrev web : TaggedProject
web = record { id = "p"; name = "web"; tags = "contract:c7" ∷ "managed" ∷ [] }

abbrev contracts : Dict (String × String)
contracts = ("p", ("web", "c7")) ∷ []

has_contracts : get_project_contracts (web ∷ []) ≡ ok contracts
unfolding get_project_contracts
has_contracts = refl

has_web : lookup "p" contracts ≡ some ("web", "c7")
unfolding lookup
has_web = refl

get_project_contracts-IsTagged_example : IsTagged (web ∷ []) "p" ("web", "c7")
get_project_contracts-IsTagged_example =
    get_project_contracts-IsTagged (web ∷ []) contracts "p" ("web", "c7") has_contracts has_web

abbrev two_hours : Period ℕ
two_hours = record { begin = 0; end = 7200000000; seconds = 7200 }

abbrev one_hour : Measure ℕ
one_hour = record { timestamp = some "T"; granularity = some 3600; value = some 4 }

abbrev volume_group : Group ℕ
volume_group = record {
  info =
      ("project_id", "p")
      ∷ ("id", "v")
      ∷ ("original_resource_id", "v")
      ∷ ("volume_type", "ssd")
      ∷ [];
  measures = some (some one_hour ∷ []);
}

abbrev aggregates : Aggregates ℕ
aggregates = record {
  status_code = 200;
  content_length = 10;
  groups = some (some volume_group ∷ []);
}

abbrev queried : List (Usage ℕ)
queried =
    record {
      project_id = "p";
      metric = "volume.size";
      metadata = ("volume_type", "ssd") ∷ [];
      hours = 1;
      size_months = 2;
    }
    ∷ []

query_returns :
    (query_gnocchi_usage whole
      (λ t. aware 0)
      two_hours
      "volume.size"
      ("volume_type" ∷ [])
      (λ i w. (ok aggregates, w))
      (λ i w. (ok true, w))
      ("p" ∷ [])
      tt).0
    ≡ ok queried
unfolding query_gnocchi_usage query_all query_projects query_project ◌>>=◌
query_returns = refl

query_gnocchi_usage-Requested_example :
    All (λ (u : Usage ℕ). contains u.project_id ("p" ∷ []) ≡ true) queried
query_gnocchi_usage-Requested_example =
    query_gnocchi_usage-Requested whole (λ t. aware 0) two_hours "volume.size" ("p" ∷ [])
      ("volume_type" ∷ []) (λ i w. (ok aggregates, w)) (λ i w. (ok true, w)) tt queried
      query_returns

abbrev cloud : Cloud ℕ Unit
cloud = record {
  list_projects = λ w. (ok (web ∷ []), w);
  volume_type_names = λ w. (ok (("t1", "ssd") ∷ []), w);
  aggregates = λ r m g i w. (ok aggregates, w);
  search =
      λ r m i marker w. (ok (record { content_length = 2; status_code = 200; body = items [] }), w);
  parse = λ t. aware 0;
  strip = λ s. s;
}

billing_rows-Keeps_example :
    Keeps (Written report two_hours cloud) (billing_rows report two_hours cloud)
billing_rows-Keeps_example = billing_rows-Keeps report two_hours cloud
