-- ===== src/Operator/Project/Teardown.antt =====
-- Deleting a project never raises.
use openstack_keystone.Prelude.{String, Option}
use openstack_keystone.Exec.Quiet.{Quiet, quiet_rules}
use openstack_keystone.Operator.Client.{IdentityClient}
use openstack_keystone.Operator.Project.{delete_project_and_group}

-- Whatever Keystone answers, `delete_project` returns.
pub delete_project_and_group-Quiet :
    (lower : String → String) {W : Type 0} (client : IdentityClient W) (project_id : String)
    (group_id : Option String)
    → Quiet (delete_project_and_group lower client project_id group_id)
unfolding delete_project_and_group
delete_project_and_group-Quiet lower client project_id group_id = search quiet_rules depth 8
