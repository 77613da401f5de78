-- ===== src/Operator/Registry/Laws.antt =====
-- What the registry relies on: the documented behaviour of a ConfigMap and of Python's `json`.
use openstack_keystone.Prelude.{String, ◌≡◌, refl, Option, none, some, or_else, []}
use openstack_keystone.Exec.{api_exception, ok, err}
use openstack_keystone.Exec.Quiet.{IsOk}
use openstack_keystone.Dict.{Dict, lookup}
use openstack_keystone.Operator.Registry.{Info, Resources, Json, ConfigMapApi, configmap_name}

-- Two lookups that find the same metadata, key by key, or find nothing both.
abbrev pub SameInfo : Option Info → Option Info → Type 0
SameInfo none none = Unit
SameInfo (some a) (some b) = (k : String) → lookup k a ≡ lookup k b
SameInfo none (some b) = ⊥
SameInfo (some a) none = ⊥

pub SameInfo-refl : (a : Option Info) → SameInfo a a
SameInfo-refl none = tt
SameInfo-refl (some a) = λ k. refl

-- `json.loads` reads back what `json.dumps` wrote, up to the order of keys.
pub record JsonLaws {T : Type 0} (json : Json T) : Type 0 where
  pub loads-dumps :
      (r : Resources)
      → (r' : Resources) × (json.loads (json.dumps r) ≡ ok r')
        × ((n : String) → SameInfo (lookup n r') (lookup n r))
  pub loads_empty : json.loads json.empty_object ≡ ok []

-- `stored w` is the ConfigMap's data, empty where there is none. Any call may fail.
pub record ConfigMapLaws {W T : Type 0} (api : ConfigMapApi W T) (namespace : String) : Type 0 where
  pub stored : W → Dict T
  pub read_ok :
      (w : W) (found : Option (Dict T)) (k : String)
      → (api.read_namespaced_config_map configmap_name namespace w).0 ≡ ok found
      → lookup k (or_else found []) ≡ lookup k (stored w)
  pub read_missing :
      (w : W) (m : String) (k : String)
      → (api.read_namespaced_config_map configmap_name namespace w).0 ≡ err (api_exception 404 m)
      → lookup k (stored w) ≡ none
  pub read_keeps :
      (w : W) → stored (api.read_namespaced_config_map configmap_name namespace w).1 ≡ stored w
  pub create_ok :
      (w : W) (k : String)
      → IsOk (api.create_namespaced_config_map namespace configmap_name w).0
      → lookup k (stored (api.create_namespaced_config_map namespace configmap_name w).1) ≡ none
  -- a patch is a merge: keys that it does not name stay
  pub patch_ok :
      (w : W) (patch : Dict T) (k : String)
      → IsOk (api.patch_namespaced_config_map configmap_name namespace patch w).0
      → lookup k (stored (api.patch_namespaced_config_map configmap_name namespace patch w).1)
        ≡ (elim (lookup k patch) [ some v ↦ some v | none ↦ lookup k (stored w) ])
