-- ===== src/Operator/ClusterGarbage.antt =====
-- Garbage collection of cluster-scoped resources (openstack-operator/src/handlers/gc_cluster.py):
-- `_collect_cluster_garbage` with its deletions, the expected CR names and the choice of the leader.
pub mod Orphaned
pub mod Leader
use openstack_keystone.Prelude.{
  String, Bool, true, false, Option, none, some, List, [], ◌∷◌, ◌++◌, map, eqb, or_else, concat,
  ◌==◌, text_lt, if◌then◌else◌,
}
use openstack_keystone.Exec.{
  Error, api_exception, Exec, pure, raise, lift, ◌>>=◌, ◌>>◌, catch, for_each,
}
use openstack_keystone.Dict.{Dict, lookup}
use openstack_keystone.Operator.Registry
use openstack_keystone.Operator.Registry.{Value, text, texts, Info, RegistryHandle}
use openstack_keystone.Operator.Garbage.{index_text}

-- The deletions of `OpenStackClient` that the collection makes.
pub record ClusterClient (W : Type 0) : Type 0 where
  pub delete_domain : String → Exec W Unit
  pub delete_flavor : String → Exec W Unit
  pub delete_image : String → Exec W Unit
  pub delete_subnet : String → Exec W Unit
  pub delete_network : String → Exec W Unit

-- `orphan.get("subnets", [])`: the operator stores a list there.
unfoldable pub subnets_of : Info → List String
unfolding lookup
subnets_of orphan = elim (lookup "subnets" orphan) [
  | none ↦ []
  | some v ↦ elim v [ text s ↦ [] | texts l ↦ l ]
]

-- `_get_expected_cr_names`, over the call that lists the names of the CRs
unfoldable pub no_crd : {W : Type 0} → Error → Exec W (List String)
no_crd (api_exception status m) = if eqb status 404 then pure [] else raise (api_exception status m)
no_crd e = raise e

unfoldable pub get_expected_cr_names :
    {W : Type 0} → Exec W (List (Option String)) → Exec W (List String)
unfolding no_crd
get_expected_cr_names list_names =
    catch (list_names >>= λ names. pure (map (λ n. or_else n "") names)) no_crd

-- the first name of `sorted(cr_items, key=…)`
unfoldable pub first_name : String → List String → String
first_name least [] = least
first_name least (n ∷ names) = first_name (if text_lt n least then n else least) names

-- The daemon of the CR `my_identity` runs the collection; the CRs have these names.
unfoldable pub is_leader : String → List String → Bool
unfolding first_name
is_leader my_identity [] = false
is_leader my_identity (n ∷ names) = my_identity == first_name n names

module _ {W : Type 0} (client : ClusterClient W) where
  unfoldable pub delete_orphaned_domain : Info → Exec W Unit
  delete_orphaned_domain orphan = do id ← lift (index_text "id" orphan); client.delete_domain id

  unfoldable pub delete_orphaned_flavor : Info → Exec W Unit
  delete_orphaned_flavor orphan = do id ← lift (index_text "id" orphan); client.delete_flavor id

  unfoldable pub delete_orphaned_image : Info → Exec W Unit
  delete_orphaned_image orphan = do id ← lift (index_text "id" orphan); client.delete_image id

  unfoldable pub delete_orphaned_network : Info → Exec W Unit
  delete_orphaned_network orphan = do
    for_each (subnets_of orphan) λ subnet_id. catch (client.delete_subnet subnet_id) (λ e. pure tt)
    id ← lift (index_text "id" orphan)
    client.delete_network id

  -- the body of the inner loop; the name if it was deleted
  unfoldable pub collect_orphan :
      RegistryHandle W → String → (Info → Exec W Unit) → Info → Exec W (List String)
  collect_orphan h resource_type delete_fn orphan =
      catch
        (do
          delete_fn orphan
          name ← lift (index_text "name" orphan)
          Registry.unregister h.api h.json h.namespace resource_type name
          pure (name ∷ []))
        λ e. pure []

  unfoldable pub collect_orphans :
      RegistryHandle W → String → (Info → Exec W Unit) → List Info → Exec W (List String)
  collect_orphans h resource_type delete_fn [] = pure []
  collect_orphans h resource_type delete_fn (orphan ∷ orphans) = do
    deleted ← collect_orphan h resource_type delete_fn orphan
    more ← collect_orphans h resource_type delete_fn orphans
    pure (deleted ++ more)

  -- the body of the loop over `resource_configs`
  unfoldable pub collect_type :
      RegistryHandle W
      → Dict (List String)
      → String
      → (Info → Exec W Unit)
      → Exec W (String × List String)
  collect_type h expected_crs resource_type delete_fn = do
    orphans ←
        Registry.get_orphans h.api h.json h.namespace resource_type
          (or_else (lookup resource_type expected_crs) [])
    deleted ← collect_orphans h resource_type delete_fn orphans
    pure (concat "deleted_" resource_type, deleted)

  unfoldable pub collect_cluster_garbage :
      RegistryHandle W → Dict (List String) → Exec W (Dict (List String))
  collect_cluster_garbage h expected_crs = do
    networks ← collect_type h expected_crs "provider_networks" delete_orphaned_network
    images ← collect_type h expected_crs "images" delete_orphaned_image
    flavors ← collect_type h expected_crs "flavors" delete_orphaned_flavor
    domains ← collect_type h expected_crs "domains" delete_orphaned_domain
    pure (networks ∷ images ∷ flavors ∷ domains ∷ [])
