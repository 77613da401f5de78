-- ===== src/Operator/Network/Teardown.antt =====
-- Deleting networks never raises.
use openstack_keystone.Prelude.{List}
use openstack_keystone.Exec.Quiet.{Quiet, quiet_rules}
use openstack_keystone.Operator.Network.{
  NetworkClient, NetworkStatus, delete_network, delete_networks,
}

module _ {W : Type 0} (client : NetworkClient W) where
  delete_network-Quiet : (status : NetworkStatus) → Quiet (delete_network client status)
  unfolding delete_network
  delete_network-Quiet status = search quiet_rules depth 12

  -- Whatever the calls answer, `delete_networks` returns, so a deletion goes on past a failure.
  pub delete_networks-Quiet :
      (statuses : List NetworkStatus) → Quiet (delete_networks client statuses)
  unfolding delete_networks
  delete_networks-Quiet statuses = search (quiet_rules, delete_network-Quiet)
