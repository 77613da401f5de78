-- ===== src/Operator/Examples/Resources.antt =====
-- Security groups, networks and the cluster-wide collection on concrete inputs.
use openstack_keystone.Prelude.{
  Elem, inl, inr, ◌==◌, if◌then◌else◌, String, ◌≡◌, refl, sym, true, false, none, some, List, [],
  ◌∷◌,
}
use openstack_keystone.Exec.{exception, ok, err, pure, ◌>>=◌, for_each}
use openstack_keystone.Exec.Quiet.{IsOk, Quiet}
use openstack_keystone.Exec.Inversion.{ok-eq}
use openstack_keystone.Dict.{lookup, insert}
use openstack_keystone.Operator.SecurityGroup.{
  SecurityGroupRule, SecurityGroupSpec, SecurityGroupStatus, SecurityGroupClient, create_groups,
  create_rules, create_rule, ensure_rule, group_or_new, index_id, ensure_security_groups,
}
use openstack_keystone.Operator.SecurityGroup.Passes.{
  Answers, status_names, spec_names, ensure_security_groups-names, ensure_security_groups-Quiet,
}
use openstack_keystone.Operator.Network.{NetworkClient, NetworkSpec, NetworkStatus, ensure_networks}
use openstack_keystone.Operator.Network.Existing.{
  Reads, Found, found_statuses, ensure_networks-found,
}
use openstack_keystone.Operator.ProviderNetwork.{
  ProviderSubnet, ProviderSubnetSpec, ProviderNetworkClient, subnet_changes, has_changes,
  update_found_subnet,
}
use openstack_keystone.Operator.ProviderNetwork.Changes.{
  with_changes, SubnetLaws, Meets, update_found_subnet-Meets,
}
use openstack_keystone.Operator.ClusterGarbage.{is_leader}
use openstack_keystone.Operator.ClusterGarbage.Leader.{IsFirst, is_leader_lem}

-- The state counts nothing but the rules that were created.
abbrev groups_client : SecurityGroupClient (List String)
groups_client = record {
  get_security_group = λ n p w. (ok none, w);
  create_security_group = λ n p d t w. (ok (record { id = n }), w);
  create_security_group_rule = λ sg d p lo hi prefix remote e w. (ok tt, sg ∷ w);
  delete_security_group = λ i w. (err (exception "Conflict"), w);
}

answers : Answers groups_client
unfolding create_rule
answers = record {
  get_answers = λ n p. record { at = λ s. tt };
  create_answers = λ n p d t. record { at = λ s. tt };
  create_rule_answers = λ sg r remote. record { at = λ s. tt };
}

abbrev from_db : SecurityGroupRule
from_db = record {
  direction = "ingress";
  protocol = some "tcp";
  port_range_min = some 5432;
  port_range_max = some 5432;
  remote_ip_prefix = none;
  remote_group_name = some "db";
  ethertype = none;
}

abbrev group_specs : List SecurityGroupSpec
group_specs =
    record { name = "web"; description = none; rules = some (from_db ∷ []) }
    ∷ record { name = "db"; description = some "DB"; rules = none }
    ∷ []

abbrev group_statuses : List SecurityGroupStatus
group_statuses = record { name = "web"; id = "web" } ∷ record { name = "db"; id = "db" } ∷ []

groups_ensured : (ensure_security_groups groups_client "p" group_specs []).0 ≡ ok group_statuses
unfolding ensure_security_groups create_groups create_rules create_rule ensure_rule group_or_new
    index_id lookup insert for_each ◌>>=◌
groups_ensured = refl

ensure_security_groups-names_example : status_names group_statuses ≡ spec_names group_specs
ensure_security_groups-names_example =
    ensure_security_groups-names groups_client "p" group_specs [] group_statuses groups_ensured

ensure_security_groups-Quiet_example : Quiet (ensure_security_groups groups_client "p" group_specs)
ensure_security_groups-Quiet_example =
    ensure_security_groups-Quiet groups_client answers "p" group_specs

-- A cloud with one network, its subnet and its router, where no deletion works; the state counts what was created.
abbrev networks_client : NetworkClient (List String)
networks_client = record {
  get_network =
      λ n p w. (ok (if n == "net" then some (record { id = "n"; name = "net" }) else none), w);
  create_network = λ n p t w. (ok (record { id = n; name = n }), n ∷ w);
  get_subnet = λ n i w. (ok (if n == "net-subnet" then some (record { id = "s" }) else none), w);
  create_subnet = λ n i c d s t w. (ok (record { id = n }), n ∷ w);
  get_router = λ n p w. (ok (if n == "net-router" then some (record { id = "r" }) else none), w);
  create_router = λ n p e s t w. (ok (record { id = n }), n ∷ w);
  get_external_network = λ n w. (ok none, w);
  add_router_interface = λ r s w. (ok tt, w);
  remove_router_interface = λ r s w. (err (exception "Conflict"), w);
  delete_router = λ r w. (err (exception "Conflict"), w);
  delete_subnet = λ s w. (err (exception "Conflict"), w);
  delete_network = λ n w. (err (exception "Conflict"), w);
}

abbrev Uncreated : List String → Type 0
Uncreated w = w ≡ []

network_reads : Reads networks_client Uncreated
network_reads = record {
  network_keeps = λ n p. record { at = λ s h. h };
  subnet_keeps = λ n i. record { at = λ s h. h };
  router_keeps = λ n p. record { at = λ s h. h };
  external_keeps = λ n. record { at = λ s h. h };
  interface_keeps = λ r i. record { at = λ s h. h };
}

abbrev network_spec : NetworkSpec
network_spec = record {
  name = "net";
  cidr = "10.0.0.0/24";
  enable_dhcp = none;
  dns_nameservers = none;
  router = some (record { external_network = some "public"; enable_snat = none });
}

net_found : Found networks_client Uncreated "p" network_spec
net_found = record {
  network = record { id = "n"; name = "net" };
  subnet = record { id = "s" };
  router = record { id = "r" };
  network_found = λ w o h e. sym (ok-eq e);
  subnet_found = λ w o h e. sym (ok-eq e);
  router_found = λ w o h e. sym (ok-eq e);
}

only_net :
    (spec : NetworkSpec) → Elem spec (network_spec ∷ []) → Found networks_client Uncreated "p" spec
only_net spec (inl e) = rw e net_found
only_net spec (inr m) = absurd m

ensure_networks-found_example :
    ((ensure_networks networks_client "p" (network_spec ∷ []) []).1 ≡ [])
    × ((statuses : List NetworkStatus)
        → (ensure_networks networks_client "p" (network_spec ∷ []) []).0 ≡ ok statuses
        → statuses ≡ found_statuses (network_spec ∷ []) only_net)
ensure_networks-found_example =
    ensure_networks-found network_reads "p" (network_spec ∷ []) only_net [] refl

abbrev network_status : NetworkStatus
network_status = record {
  name = "net";
  network_id = some "n";
  subnet_id = some "s";
  router_id = some "r";
}

abbrev subnet_spec : ProviderSubnetSpec
subnet_spec = record {
  name = "v4";
  cidr = "10.0.0.0/24";
  gateway_ip = none;
  enable_dhcp = some false;
  dns_nameservers = some ("1.1.1.1" ∷ []);
  allocation_pools = none;
  ipv6_ra_mode = none;
  ipv6_address_mode = none;
}

abbrev old_subnet : ProviderSubnet
old_subnet = record {
  id = "s";
  name = "v4";
  is_dhcp_enabled = true;
  dns_nameservers = [];
  allocation_pools = [];
}

-- The state is one subnet.
abbrev one_subnet : ProviderNetworkClient ProviderSubnet
one_subnet = record {
  get_network_by_name = λ n w. (ok none, w);
  create_provider_network = λ n t p i e sh d w. (ok (record { id = n; name = n }), w);
  get_subnet = λ n i w. (ok (some w), w);
  create_subnet_with_pools = λ n i c g e d p r a w. (ok w, w);
  update_subnet = λ i changes w. (ok tt, with_changes changes w);
  list_subnets = λ i w. (ok (w ∷ []), w);
  delete_subnet = λ i w. (ok tt, w);
  delete_network = λ i w. (ok tt, w);
}

subnet_laws : SubnetLaws one_subnet
subnet_laws = record { subnet_of = λ w i. some w; update_ok = λ w i changes s there h. cc }

updated : IsOk (update_found_subnet one_subnet "n" subnet_spec (some old_subnet) old_subnet).0
unfolding update_found_subnet ◌>>=◌ pure subnet_changes has_changes
updated = tt

update_found_subnet-Meets_example :
    (s : ProviderSubnet) × (some
        (update_found_subnet one_subnet "n" subnet_spec (some old_subnet) old_subnet).1
      ≡ some s)
    × Meets subnet_spec old_subnet s
unfolding subnet_laws
update_found_subnet-Meets_example =
    update_found_subnet-Meets subnet_laws "n" subnet_spec old_subnet old_subnet refl updated

is_leader_lem_example :
    (leader : String) × IsFirst leader ("b" ∷ "a" ∷ [])
    × ((m : String) → is_leader m ("b" ∷ "a" ∷ []) ≡ true → m ≡ leader)
    × (is_leader leader ("b" ∷ "a" ∷ []) ≡ true)
is_leader_lem_example = is_leader_lem "b" ("a" ∷ [])
