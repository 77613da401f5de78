-- ===== src/Operator/Examples/Storage.antt =====
-- The registry over a ConfigMap that is the whole state, with dicts in place of JSON texts.
use openstack_keystone.Prelude.{All, String, ◌≡◌, refl, none, some, List, [], ◌∷◌, ◌++◌, arith}
use openstack_keystone.Exec.{ok, ◌>>=◌}
use openstack_keystone.Exec.Quiet.{IsOk}
use openstack_keystone.Exec.Inversion.{ok-eq}
use openstack_keystone.Dict.{DistinctKeys, Dict, lookup, insert, update}
use openstack_keystone.Operator.Registry.{
  Info, Resources, Json, ConfigMapApi, entry, register, unregister, get_orphans, text,
  get_resources, set_resources, get_configmap, update_configmap, named, is_orphan,
}
use openstack_keystone.Operator.Registry.Laws.{SameInfo-refl, JsonLaws, ConfigMapLaws}
use openstack_keystone.Operator.Registry.View.{view, Changes, register-Changes, unregister-Changes}
use openstack_keystone.Operator.Registry.Orphans.{Orphans, get_orphans-Orphans}

abbrev plain : Json Resources
plain = record { dumps = λ r. r; loads = λ r. ok r; empty_object = [] }

plain_laws : JsonLaws plain
plain_laws = record {
  loads-dumps = λ r. (r, refl, λ n. SameInfo-refl (lookup n r));
  loads_empty = refl;
}

abbrev config_map : ConfigMapApi (Dict Resources) Resources
config_map = record {
  read_namespaced_config_map = λ n m w. (ok (some w), w);
  create_namespaced_config_map = λ n m w. (ok tt, []);
  patch_namespaced_config_map = λ n m patch w. (ok tt, patch ++ w);
}

lookup-append :
    (k : String) (p d : Dict Resources)
    → lookup k (p ++ d) ≡ (elim (lookup k p) [ some v ↦ some v | none ↦ lookup k d ])
unfolding lookup
lookup-append k [] d = refl
lookup-append k ((j, v) ∷ p) d = ground (arith, lookup-append k p d)

config_map_laws : ConfigMapLaws config_map "ns"
unfolding lookup
config_map_laws = record {
  stored = λ w. w;
  read_ok = λ w found k h. rw (← ok-eq h) refl;
  read_missing = λ w m k h. cc;
  read_keeps = λ w. refl;
  create_ok = λ w k h. refl;
  patch_ok = λ w patch k h. lookup-append k patch w;
}

abbrev stored_flavor : Dict Resources
stored_flavor = ("flavors.json", ("small", entry "f1" "cr1" []) ∷ []) ∷ []

registered : IsOk (register config_map plain "ns" "flavors" "big" "f2" "cr2" [] stored_flavor).0
unfolding register get_resources set_resources get_configmap update_configmap ◌>>=◌
registered = tt

register-Changes_example :
    Changes config_map_laws plain "flavors" "big"
      (some (entry "f2" "cr2" []))
      stored_flavor
      (register config_map plain "ns" "flavors" "big" "f2" "cr2" [] stored_flavor).1
register-Changes_example =
    register-Changes config_map_laws plain plain_laws "flavors" "big" "f2" "cr2" [] stored_flavor
      registered

unregistered : IsOk (unregister config_map plain "ns" "flavors" "small" stored_flavor).0
unfolding unregister get_resources set_resources get_configmap update_configmap lookup ◌>>=◌
unregistered = tt

unregister-Changes_example :
    Changes config_map_laws plain "flavors" "small" none stored_flavor
      (unregister config_map plain "ns" "flavors" "small" stored_flavor).1
unregister-Changes_example =
    unregister-Changes config_map_laws plain plain_laws "flavors" "small" stored_flavor unregistered

abbrev orphan_flavors : List Info
orphan_flavors = (("name", text "small") ∷ ("id", text "f1") ∷ ("cr_name", text "cr1") ∷ []) ∷ []

orphaned :
    (get_orphans config_map plain "ns" "flavors" ("cr2" ∷ []) stored_flavor).0 ≡ ok orphan_flavors
unfolding get_orphans get_resources get_configmap lookup update insert named is_orphan entry ◌>>=◌
orphaned = refl

stored_distinct :
    (r : Resources)
    → view config_map_laws plain stored_flavor "flavors" ≡ ok r
    → All (λ (e : String × Info). DistinctKeys e.1) r
unfolding config_map_laws lookup update insert entry
stored_distinct r h = rw (← ok-eq h) ((refl, (refl, tt)), tt)

get_orphans-Orphans_example :
    (r : Resources) × (view config_map_laws plain stored_flavor "flavors" ≡ ok r)
    × Orphans ("cr2" ∷ []) r orphan_flavors
get_orphans-Orphans_example =
    get_orphans-Orphans config_map_laws plain "flavors" ("cr2" ∷ []) stored_flavor orphan_flavors
      stored_distinct orphaned
