-- ===== src/Operator/ProviderNetwork.antt =====
-- Provider networks (openstack-operator/src/resources/provider_network.py). `name`, `cidr` and a
-- pool's `start` and `end` are keys that the CRD requires.
pub mod Changes
use openstack_keystone.Prelude.{
  ℕ, String, Bool, true, false, not, ◌&&◌, Option, none, some, List, [], ◌∷◌, map, ◌==◌, is_some,
  ◌||◌, or_else, if◌then◌else◌,
}
use openstack_keystone.Exec.{Exec, pure, ◌>>=◌, ◌>>◌, catch, for_each, map_each}
use openstack_keystone.Operator.Network.{Network}
use openstack_keystone.Operator.Project.{differs}

pub record AllocationPool : Type 0 where
  pub start : String
  pub end : String

-- A subnet of the SDK, with the attributes that are read.
pub record ProviderSubnet : Type 0 where
  pub id : String
  pub name : String
  pub is_dhcp_enabled : Bool
  pub dns_nameservers : List String
  pub allocation_pools : List AllocationPool

pub record ProviderSubnetSpec : Type 0 where
  pub name : String
  pub cidr : String
  pub gateway_ip : Option String
  pub enable_dhcp : Option Bool
  pub dns_nameservers : Option (List String)
  pub allocation_pools : Option (List AllocationPool)
  pub ipv6_ra_mode : Option String
  pub ipv6_address_mode : Option String

pub record ProviderNetworkSpec : Type 0 where
  pub name : String
  pub provider_network_type : Option String
  pub provider_physical_network : Option String
  pub provider_segmentation_id : Option ℕ
  pub external : Option Bool
  pub shared : Option Bool
  pub description : Option String
  pub subnets : Option (List ProviderSubnetSpec)

pub record SubnetStatus : Type 0 where
  pub name : String
  pub subnet_id : String

pub record ProviderNetworkStatus : Type 0 where
  pub network_id : String
  pub subnets : List SubnetStatus

-- What `get_provider_network_info` returns.
pub record ProviderNetworkInfo : Type 0 where
  pub network_id : String
  pub name : String
  pub subnets : List SubnetStatus

-- The keyword arguments of `update_subnet`.
pub record SubnetChanges : Type 0 where
  pub is_dhcp_enabled : Option Bool
  pub dns_nameservers : Option (List String)
  pub allocation_pools : Option (List AllocationPool)

-- The calls of `OpenStackClient`. The arguments of a new network: name, type, physical network,
-- segmentation ID, external, shared, description; of a new subnet: network, and the fields of its
-- specification with their defaults.
pub record ProviderNetworkClient (W : Type 0) : Type 0 where
  pub get_network_by_name : String → Exec W (Option Network)
  pub create_provider_network :
      String → String → Option String → Option ℕ → Bool → Bool → String → Exec W Network
  pub get_subnet : String → String → Exec W (Option ProviderSubnet)
  pub create_subnet_with_pools :
      String
      → String
      → String
      → Option String
      → Bool
      → Option (List String)
      → Option (List AllocationPool)
      → Option String
      → Option String
      → Exec W ProviderSubnet
  pub update_subnet : String → SubnetChanges → Exec W Unit
  pub list_subnets : String → Exec W (List ProviderSubnet)
  pub delete_subnet : String → Exec W Unit
  pub delete_network : String → Exec W Unit

-- `==` on lists of texts and on lists of pools
unfoldable pub same_texts : List String → List String → Bool
same_texts [] [] = true
same_texts [] (y ∷ ys) = false
same_texts (x ∷ xs) [] = false
same_texts (x ∷ xs) (y ∷ ys) = x == y && same_texts xs ys

unfoldable pub same_pools : List AllocationPool → List AllocationPool → Bool
same_pools [] [] = true
same_pools [] (y ∷ ys) = false
same_pools (x ∷ xs) [] = false
same_pools (x ∷ xs) (y ∷ ys) = x.start == y.start && (x.end == y.end && same_pools xs ys)

-- a value that is given and differs
unfoldable pub changed : {A : Type 0} → (A → A → Bool) → A → Option A → Option A
changed same old none = none
changed same old (some new) = if same old new then none else some new

-- `kwargs` of `update_subnet_properties`
unfoldable pub subnet_changes : ProviderSubnetSpec → ProviderSubnet → SubnetChanges
unfolding changed same_texts same_pools
subnet_changes spec existing = record {
  is_dhcp_enabled =
      changed (λ a b. not (differs a b)) existing.is_dhcp_enabled
        (some (or_else spec.enable_dhcp true));
  dns_nameservers = changed same_texts existing.dns_nameservers spec.dns_nameservers;
  allocation_pools = changed same_pools existing.allocation_pools spec.allocation_pools;
}

-- `if kwargs:`
unfoldable pub has_changes : SubnetChanges → Bool
has_changes changes =
    is_some changes.is_dhcp_enabled
    || (is_some changes.dns_nameservers || is_some changes.allocation_pools)

unfoldable pub subnet_status : ProviderSubnet → SubnetStatus
subnet_status s = record { name = s.name; subnet_id = s.id }

module _ {W : Type 0} (client : ProviderNetworkClient W) where
  open client use {
    get_network_by_name, create_provider_network, get_subnet, create_subnet_with_pools,
    update_subnet, list_subnets, delete_subnet, delete_network,
  }

  unfoldable pub get_subnet_statuses : String → Exec W (List SubnetStatus)
  unfolding subnet_status
  get_subnet_statuses network_id = do
    subnets ← list_subnets network_id
    pure (map subnet_status subnets)

  unfoldable pub provider_subnet_or_new :
      String → ProviderSubnetSpec → Option ProviderSubnet → Exec W SubnetStatus
  provider_subnet_or_new network_id spec (some existing) =
      pure (record { name = spec.name; subnet_id = existing.id })
  provider_subnet_or_new network_id spec none = do
    subnet ←
        create_subnet_with_pools spec.name network_id spec.cidr spec.gateway_ip
          (or_else spec.enable_dhcp true) spec.dns_nameservers spec.allocation_pools
          spec.ipv6_ra_mode spec.ipv6_address_mode
    pure (record { name = spec.name; subnet_id = subnet.id })

  unfoldable pub ensure_subnet : String → ProviderSubnetSpec → Exec W SubnetStatus
  ensure_subnet network_id spec = do
    existing ← get_subnet spec.name network_id
    provider_subnet_or_new network_id spec existing

  unfoldable pub provider_network_or_new :
      ProviderNetworkSpec → Option Network → Exec W ProviderNetworkStatus
  provider_network_or_new spec (some existing) = do
    subnets ← get_subnet_statuses existing.id
    pure (record { network_id = existing.id; subnets = subnets })
  provider_network_or_new spec none = do
    network ←
        create_provider_network spec.name (or_else spec.provider_network_type "flat")
          spec.provider_physical_network spec.provider_segmentation_id (or_else spec.external false)
          (or_else spec.shared false) (or_else spec.description "")
    subnets ← map_each (or_else spec.subnets []) (ensure_subnet network.id)
    pure (record { network_id = network.id; subnets = subnets })

  unfoldable pub ensure_provider_network : ProviderNetworkSpec → Exec W ProviderNetworkStatus
  ensure_provider_network spec = do
    existing ← get_network_by_name spec.name
    provider_network_or_new spec existing

  -- one round of `update_subnet_properties`, for the subnet that was found
  unfoldable pub update_found_subnet :
      String → ProviderSubnetSpec → Option ProviderSubnet → Exec W SubnetStatus
  update_found_subnet network_id spec none = ensure_subnet network_id spec
  update_found_subnet network_id spec (some existing) = do
    if has_changes (subnet_changes spec existing)
        then update_subnet existing.id (subnet_changes spec existing)
        else pure tt
    pure (record { name = spec.name; subnet_id = existing.id })

  unfoldable pub update_subnet_properties :
      String → List ProviderSubnetSpec → Exec W (List SubnetStatus)
  update_subnet_properties network_id subnet_specs = map_each subnet_specs λ spec. do
    existing ← get_subnet spec.name network_id
    update_found_subnet network_id spec existing

  unfoldable pub delete_provider_network : String → Option (List String) → Exec W Unit
  delete_provider_network network_id subnet_ids = do
    for_each (or_else subnet_ids []) λ subnet_id. catch (delete_subnet subnet_id) (λ e. pure tt)
    delete_network network_id

  unfoldable pub provider_network_info : Option Network → Exec W (Option ProviderNetworkInfo)
  provider_network_info none = pure none
  provider_network_info (some network) = do
    subnets ← get_subnet_statuses network.id
    pure (some (record { network_id = network.id; name = network.name; subnets = subnets }))

  unfoldable pub get_provider_network_info : String → Exec W (Option ProviderNetworkInfo)
  get_provider_network_info name = do
    network ← get_network_by_name name
    provider_network_info network
