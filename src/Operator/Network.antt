-- ===== src/Operator/Network.antt =====
-- Tenant networks (openstack-operator/src/resources/network.py). `name` and `cidr` are keys that the
-- CRD requires of a network.
pub mod Teardown
pub mod Existing
use openstack_keystone.Prelude.{
  String, Bool, true, false, ◌&&◌, Option, none, some, List, [], ◌∷◌, concat, present, or_else,
  if◌then◌else◌,
}
use openstack_keystone.Exec.{Exec, pure, ◌>>=◌, ◌>>◌, catch, for_each, map_each}
use openstack_keystone.Operator.Garbage.{managed_by_tag}

pub record Network : Type 0 where
  pub id : String
  pub name : String

pub record Subnet : Type 0 where
  pub id : String

pub record Router : Type 0 where
  pub id : String

-- The network calls of `OpenStackClient`.
pub record NetworkClient (W : Type 0) : Type 0 where
  pub get_network : String → String → Exec W (Option Network)
  pub create_network : String → String → List String → Exec W Network
  pub get_subnet : String → String → Exec W (Option Subnet)
  pub create_subnet : String → String → String → Bool → List String → List String → Exec W Subnet
  pub get_router : String → String → Exec W (Option Router)
  pub create_router : String → String → Option String → Bool → List String → Exec W Router
  pub get_external_network : String → Exec W (Option Network)
  pub add_router_interface : String → String → Exec W Unit
  pub remove_router_interface : String → String → Exec W Unit
  pub delete_router : String → Exec W Unit
  pub delete_subnet : String → Exec W Unit
  pub delete_network : String → Exec W Unit

pub record RouterSpec : Type 0 where
  pub external_network : Option String
  pub enable_snat : Option Bool

-- `router` is none where the CR has none, or an empty one.
pub record NetworkSpec : Type 0 where
  pub name : String
  pub cidr : String
  pub enable_dhcp : Option Bool
  pub dns_nameservers : Option (List String)
  pub router : Option RouterSpec

pub record NetworkStatus : Type 0 where
  pub name : String
  pub network_id : Option String
  pub subnet_id : Option String
  pub router_id : Option String

abbrev pub resource_tags : List String
resource_tags = managed_by_tag ∷ []

module _ {W : Type 0} (client : NetworkClient W) where
  open client use {
    get_network, create_network, get_subnet, create_subnet, get_router, create_router,
    get_external_network, add_router_interface, remove_router_interface, delete_router,
    delete_subnet,
  }

  unfoldable pub network_or_new : String → String → Option Network → Exec W Network
  network_or_new name project_id (some network) = pure network
  network_or_new name project_id none = create_network name project_id resource_tags

  unfoldable pub subnet_or_new : NetworkSpec → String → Option Subnet → Exec W Subnet
  subnet_or_new spec network_id (some subnet) = pure subnet
  subnet_or_new spec network_id none =
      create_subnet (concat spec.name "-subnet") network_id spec.cidr
        (or_else spec.enable_dhcp true) (or_else spec.dns_nameservers []) resource_tags

  -- the ID of the external network, if one is named and found
  unfoldable pub external_network_id : RouterSpec → Exec W (Option String)
  external_network_id router_spec =
      if present router_spec.external_network
      then (do
        found ← get_external_network (or_else router_spec.external_network "")
        pure (elim found [ none ↦ none | some n ↦ some n.id ]))
      else pure none

  unfoldable pub router_or_new :
      String → String → Option String → RouterSpec → Option Router → Exec W Router
  router_or_new router_name project_id external router_spec (some router) = pure router
  router_or_new router_name project_id external router_spec none =
      create_router router_name project_id external (or_else router_spec.enable_snat true)
        resource_tags

  -- `if router_spec:` and what follows; the router's ID, if there is one
  unfoldable pub ensure_router :
      String → String → String → Option RouterSpec → Exec W (Option String)
  ensure_router name project_id subnet_id none = pure none
  ensure_router name project_id subnet_id (some router_spec) = do
    found ← get_router (concat name "-router") project_id
    external ← external_network_id router_spec
    router ← router_or_new (concat name "-router") project_id external router_spec found
    add_router_interface router.id subnet_id
    pure (some router.id)

  unfoldable pub ensure_network : String → NetworkSpec → Exec W NetworkStatus
  ensure_network project_id spec = do
    found ← get_network spec.name project_id
    network ← network_or_new spec.name project_id found
    found_subnet ← get_subnet (concat spec.name "-subnet") network.id
    subnet ← subnet_or_new spec network.id found_subnet
    router_id ← ensure_router spec.name project_id subnet.id spec.router
    pure (record {
      name = spec.name;
      network_id = some network.id;
      subnet_id = some subnet.id;
      router_id = router_id;
    })

  -- a deletion that only logs its failure
  unfoldable pub attempt : Exec W Unit → Exec W Unit
  attempt m = catch m λ e. pure tt

  -- the router's interface and the router first, then the subnet, then the network
  unfoldable pub delete_network : NetworkStatus → Exec W Unit
  unfolding attempt
  delete_network status = do
    let router_id = or_else status.router_id ""
    let subnet_id = or_else status.subnet_id ""
    if present status.router_id && present status.subnet_id
        then attempt (remove_router_interface router_id subnet_id)
        else pure tt
    if present status.router_id then attempt (delete_router router_id) else pure tt
    if present status.subnet_id then attempt (delete_subnet subnet_id) else pure tt
    if present status.network_id
        then attempt (client.delete_network (or_else status.network_id ""))
        else pure tt

  unfoldable pub ensure_networks : String → List NetworkSpec → Exec W (List NetworkStatus)
  ensure_networks project_id network_specs = map_each network_specs (ensure_network project_id)

  unfoldable pub delete_networks : List NetworkStatus → Exec W Unit
  delete_networks network_statuses = for_each network_statuses delete_network
