-- ===== src/Operator/Examples/Clusters.antt =====
-- The cluster-wide collection with one expected entry and one orphan of each type.
use openstack_keystone.Prelude.{
  String, ◌≡◌, refl, sym, ◌∙◌, false, none, List, [], ◌∷◌, inl, inr, contains, or_else, Elem,
}
use openstack_keystone.Exec.{ok, ◌>>=◌}
use openstack_keystone.Exec.Keeps.{Keeps, keeps_rules}
use openstack_keystone.Exec.Inversion.{ok-eq}
use openstack_keystone.Dict.{Dict, lookup, insert, update}
use openstack_keystone.Operator.Registry.{
  Info, Resources, RegistryHandle, named, is_orphan, cr_name_in, get_configmap, get_resources,
  get_orphans, unregister, set_resources, update_configmap, text,
}
use openstack_keystone.Operator.Garbage.{index_text}
use openstack_keystone.Operator.ClusterGarbage.{ClusterClient, subnets_of, collect_cluster_garbage}
use openstack_keystone.Operator.ClusterGarbage.Orphaned.{
  IsOrphan, SparesKnown, collect_cluster_garbage-Keeps,
}

-- The state is the IDs that were deleted.
abbrev client : ClusterClient (List String)
client = record {
  delete_domain = λ i w. (ok tt, i ∷ w);
  delete_flavor = λ i w. (ok tt, i ∷ w);
  delete_image = λ i w. (ok tt, i ∷ w);
  delete_subnet = λ i w. (ok tt, i ∷ w);
  delete_network = λ i w. (ok tt, i ∷ w);
}

-- Each type has an entry of the CR "a" and one of the CR "b".
abbrev entries : Resources
entries =
    ("gone", ("id", text "i1") ∷ ("cr_name", text "a") ∷ [])
    ∷ ("here", ("id", text "keep") ∷ ("cr_name", text "b") ∷ [])
    ∷ []

abbrev handle : RegistryHandle (List String)
handle = record {
  api = record {
    read_namespaced_config_map = λ n m w. (ok none, w);
    create_namespaced_config_map = λ n m w. (ok tt, w);
    patch_namespaced_config_map = λ n m p w. (ok tt, w);
  };
  json = record { dumps = λ r. ""; loads = λ t. ok entries; empty_object = "" };
  namespace = "ns";
}

abbrev expected_crs : Dict (List String)
expected_crs =
    ("provider_networks", "b" ∷ [])
    ∷ ("images", "b" ∷ [])
    ∷ ("flavors", "b" ∷ [])
    ∷ ("domains", "b" ∷ [])
    ∷ []

abbrev gone : Info
gone = ("name", text "gone") ∷ ("id", text "i1") ∷ ("cr_name", text "a") ∷ []

-- The expected entry's resource was not deleted.
abbrev Kept : List String → Type 0
Kept deleted = contains "keep" deleted ≡ false

orphans_found :
    (t : String) (w : List String)
    → (get_orphans handle.api handle.json handle.namespace t ("b" ∷ []) w).0 ≡ ok (gone ∷ [])
unfolding get_orphans get_resources get_configmap lookup insert update named is_orphan cr_name_in
    ◌>>=◌
orphans_found t w = refl

only_gone :
    (t : String) (info : Info)
    → or_else (lookup t expected_crs) [] ≡ "b" ∷ []
    → IsOrphan client handle expected_crs t info
    → info ≡ gone
only_gone t info names (w, infos, e, m) =
    let found = ok-eq (sym (orphans_found t w) ∙ rw names at e) in
    elim (rw (← found) at m) [ inl same ↦ same | inr none_left ↦ absurd none_left ]

id_of_gone :
    (info : Info) (id : String)
    → info ≡ gone
    → index_text "id" info ≡ ok id
    → (w : List String) → Kept w
    → Kept (id ∷ w)
unfolding index_text lookup
id_of_gone info id same e w kept = rw (← ok-eq (rw same at e)) kept

Kept-by_delete :
    (t : String) (info : Info) (id : String)
    → or_else (lookup t expected_crs) [] ≡ "b" ∷ []
    → IsOrphan client handle expected_crs t info
    → index_text "id" info ≡ ok id
    → Keeps Kept (λ w. (ok tt, id ∷ w))
Kept-by_delete t info id names o e = record { at = id_of_gone info id (only_gone t info names o) e }

no_subnets : (info : Info) (id : String) → info ≡ gone → Elem id (subnets_of info) → ⊥
unfolding subnets_of lookup
no_subnets info id same m = absurd (rw same at m)

get_resources-Kept :
    (t : String) → Keeps Kept (get_resources handle.api handle.json handle.namespace t)
unfolding get_resources get_configmap ◌>>=◌
get_resources-Kept t = record { at = λ w h. h }

set_resources-Kept :
    (t : String) (r : Resources)
    → Keeps Kept (set_resources handle.api handle.json handle.namespace t r)
unfolding set_resources update_configmap get_configmap ◌>>=◌
set_resources-Kept t r = record { at = λ w h. h }

unregister-Kept :
    (t n : String) → Keeps Kept (unregister handle.api handle.json handle.namespace t n)
unfolding unregister
unregister-Kept t n = search (keeps_rules, get_resources-Kept, set_resources-Kept)

spares : SparesKnown client handle expected_crs Kept
unfolding get_orphans get_resources get_configmap lookup ◌>>=◌
spares = record {
  get_orphans_keeps = λ t names. record { at = λ w h. h };
  unregister_keeps = λ t n. unregister-Kept t n;
  delete_network_keeps = λ info id. Kept-by_delete "provider_networks" info id refl;
  delete_subnet_keeps =
      λ info id o m. absurd (no_subnets info id (only_gone "provider_networks" info refl o) m);
  delete_image_keeps = λ info id. Kept-by_delete "images" info id refl;
  delete_flavor_keeps = λ info id. Kept-by_delete "flavors" info id refl;
  delete_domain_keeps = λ info id. Kept-by_delete "domains" info id refl;
}

collect_cluster_garbage-Keeps_example :
    Keeps Kept (collect_cluster_garbage client handle expected_crs)
collect_cluster_garbage-Keeps_example =
    collect_cluster_garbage-Keeps client handle expected_crs spares
