-- ===== src/Operator/Registry.antt =====
-- `ResourceRegistry` (openstack-operator/src/resources/registry.py): the resources that the operator
-- manages, kept as JSON texts in one Kubernetes ConfigMap. The Kubernetes API and Python's `json`
-- are parameters. An entry's metadata is a dict of texts and lists of texts, which is all that the
-- operator stores.
pub mod Laws
pub mod View
pub mod Orphans
use openstack_keystone.Prelude.{
  ℕ, String, Bool, true, false, Option, none, some, List, [], ◌∷◌, filter, map, ◌==◌, not, contains,
  concat, truthy, or_else, eqb, if◌then◌else◌,
}
use openstack_keystone.Exec.{
  Error, api_exception, exception, Result, ok, err, Exec, pure, raise, lift, ◌>>=◌, ◌>>◌, catch,
}
use openstack_keystone.Dict
use openstack_keystone.Dict.{Dict, lookup, insert, remove, update, has}

pub data Value : Type 0 where
  text : String → Value
  texts : List String → Value

-- The metadata of one resource, and the resources of one type by name.
abbrev pub Info : Type 0
Info = Dict Value

abbrev pub Resources : Type 0
Resources = Dict Info

-- `json.dumps(…, sort_keys=True)`, `json.loads` and the text "{}", over the type of JSON texts.
pub record Json (T : Type 0) : Type 0 where
  pub dumps : Resources → T
  pub loads : T → Result Resources
  pub empty_object : T

-- The calls of `CoreV1Api` that the registry makes; a ConfigMap's data may be missing.
pub record ConfigMapApi (W T : Type 0) : Type 0 where
  pub read_namespaced_config_map : String → String → Exec W (Option (Dict T))
  pub create_namespaced_config_map : String → String → Exec W Unit
  pub patch_namespaced_config_map : String → String → Dict T → Exec W Unit

abbrev pub configmap_name : String
configmap_name = "openstack-operator-managed-resources"

-- `{"id": …, "cr_name": …, **(extra or {})}`
unfoldable pub entry : String → String → Info → Info
unfolding update
entry resource_id cr_name extra =
    update (("id", text resource_id) ∷ ("cr_name", text cr_name) ∷ []) extra

-- `d.get("cr_name") in names`: only a text can be in a set of texts.
unfoldable pub cr_name_in : List String → Info → Bool
unfolding lookup
cr_name_in names info = elim (lookup "cr_name" info) [
  | none ↦ false
  | some v ↦ elim v [ text s ↦ contains s names | texts l ↦ false ]
]

-- `{"name": name, **info}`
unfoldable pub named : String × Info → Info
unfolding update
named (name, info) = update (("name", text name) ∷ []) info

-- `name for name, info in items if info.get("cr_name") not in expected`
unfoldable pub is_orphan : List String → String × Info → Bool
unfolding cr_name_in
is_orphan expected (name, info) = not (cr_name_in expected info)

unfoldable pub owned_by : String → String × Info → Bool
unfolding lookup
owned_by cr_name (name, info) = elim (lookup "cr_name" info) [
  | none ↦ false
  | some v ↦ elim v [ text s ↦ s == cr_name | texts l ↦ false ]
]

-- The CR name of an entry, where it is a text that is not empty.
unfoldable pub cr_names : Resources → List String
unfolding lookup
cr_names [] = []
cr_names ((name, info) ∷ rest) =
    let more = cr_names rest in
    elim (lookup "cr_name" info) [
      | none ↦ more
      | some v ↦ elim v [ text s ↦ if truthy s then s ∷ more else more | texts l ↦ more ]
    ]

module _ {W T : Type 0} (api : ConfigMapApi W T) (namespace : String) where
  open api use {
    read_namespaced_config_map, create_namespaced_config_map, patch_namespaced_config_map,
  }

  -- the `except` of `_get_configmap`: a missing ConfigMap is created empty
  unfoldable pub create_if_missing : Error → Exec W (Dict T)
  create_if_missing (api_exception status m) =
      if eqb status 404
      then create_namespaced_config_map namespace configmap_name >> pure []
      else raise (api_exception status m)
  create_if_missing e = raise e

  unfoldable pub get_configmap : Exec W (Dict T)
  get_configmap =
      catch
        (read_namespaced_config_map configmap_name namespace >>= λ found. pure (or_else found []))
        create_if_missing

  unfoldable pub update_configmap : Dict T → Exec W Unit
  update_configmap = patch_namespaced_config_map configmap_name namespace

module _ {W T : Type 0} (api : ConfigMapApi W T) (json : Json T) (namespace : String) where
  open json use {dumps, loads, empty_object}

  unfoldable pub get_resources : String → Exec W Resources
  get_resources resource_type = do
    found ← get_configmap api namespace
    lift (loads (or_else (lookup (concat resource_type ".json") found) empty_object))

  unfoldable pub set_resources : String → Resources → Exec W Unit
  set_resources resource_type resources = do
    found ← get_configmap api namespace
    update_configmap api namespace (insert (concat resource_type ".json") (dumps resources) found)

  unfoldable pub register : String → String → String → String → Info → Exec W Unit
  register resource_type name resource_id cr_name extra = do
    resources ← get_resources resource_type
    set_resources resource_type (insert name (entry resource_id cr_name extra) resources)

  unfoldable pub unregister : String → String → Exec W Unit
  unregister resource_type name = do
    resources ← get_resources resource_type
    if has name resources then set_resources resource_type (remove name resources) else pure tt

  unfoldable pub get : String → String → Exec W (Option Info)
  get resource_type name = do resources ← get_resources resource_type; pure (lookup name resources)

  unfoldable pub get_by_cr : String → String → Exec W (List Info)
  get_by_cr resource_type cr_name = do
    resources ← get_resources resource_type
    pure (map named (filter (owned_by cr_name) resources))

  unfoldable pub get_orphans : String → List String → Exec W (List Info)
  get_orphans resource_type expected_cr_names = do
    resources ← get_resources resource_type
    pure (map named (filter (is_orphan expected_cr_names) resources))

  unfoldable pub list_all_cr_names : String → Exec W (List String)
  list_all_cr_names resource_type = do
    resources ← get_resources resource_type
    pure (cr_names resources)

-- A `ResourceRegistry` object: its API client and its namespace.
pub record RegistryHandle (W : Type 0) : Type 0 where
  pub api : ConfigMapApi W String
  pub json : Json String
  pub namespace : String
