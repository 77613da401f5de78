-- ===== src/Operator/Examples/Cloud.antt =====
-- The identity service as one record: the users of the one group, the roles that were assigned, the
-- one domain, the projects, and the one mapping.
mod Roles
mod Mappings
mod Domains
mod Collection
use openstack_keystone.Prelude.{
  String, Bool, true, false, not, Option, none, some, List, [], ◌∷◌, ◌++◌, map, filter, ◌==◌,
  truthy,
}
use openstack_keystone.Exec.{Exec, ok}
use openstack_keystone.Operator.Client.{IdentityClient, Domain, Project, Group, Role, User}
use openstack_keystone.Operator.Federation.{Rule, FederationClient, FederationConfig}

pub record World : Type 0 where
  pub members : List String
  pub assigned : List String
  pub domain : Option Domain
  pub projects : List String
  pub mapping : Option (Option (List Rule))

abbrev pub new_world : World
new_world = record {
  members = "eve" ∷ [];
  assigned = [];
  domain = none;
  projects = "keep" ∷ "drop" ∷ [];
  mapping = none;
}

abbrev pub user_called : String → User
user_called n = record { id = n; name = n }

abbrev pub project_called : String → Project
project_called n = record { id = n; name = n; description = ""; is_enabled = true }

abbrev pub domain_called : String → String → Bool → Domain
domain_called n text enabled = record { id = n; name = n; description = text; is_enabled = enabled }

abbrev pub renewed : String → Bool → Option Domain → Option Domain
renewed text enabled none = none
renewed text enabled (some d) = some (record d { description = text; is_enabled = enabled })

abbrev pub without : String → List String → List String
without i = filter (λ x. not (x == i))

abbrev pub role_called : String → Role
role_called n = record { id = n }

abbrev pub group_called : String → Group
group_called n = record { id = n }

abbrev pub identity : IdentityClient World
identity = record {
  get_domain = λ n w. (ok w.domain, w);
  create_domain =
      λ n t e w. (ok (domain_called n t e), record w { domain = some (domain_called n t e) });
  update_domain = λ i t e w. (ok tt, record w { domain = renewed t e w.domain });
  delete_domain = λ i w. (ok tt, record w { domain = none });
  get_project = λ n d w. (ok none, w);
  list_projects_with_tag = λ d t w. (ok (map project_called w.projects), w);
  create_project = λ n d t e w. (ok (project_called n), record w { projects = n ∷ w.projects });
  update_project = λ i t e w. (ok tt, w);
  delete_project = λ i w. (ok tt, record w { projects = without i w.projects });
  add_project_tag = λ i t w. (ok tt, w);
  set_project_contract_tag = λ i c w. (ok tt, w);
  get_group = λ n d w. (ok (some (group_called n)), w);
  get_group_by_id = λ i w. (ok (some (group_called i)), w);
  create_group = λ n d t w. (ok (group_called n), w);
  delete_group = λ i w. (ok tt, w);
  get_user = λ n d w. (ok (some (user_called n)), w);
  add_user_to_group = λ u g w. (ok tt, record w { members = u ∷ w.members });
  remove_user_from_group = λ u g w. (ok tt, record w { members = without u w.members });
  list_group_users = λ g w. (ok (map user_called w.members), w);
  get_role = λ n w. (ok (some (role_called n)), w);
  assign_role_to_group = λ r g p w. (ok tt, record w { assigned = r ∷ w.assigned });
  assign_role_to_user = λ r u p w. (ok tt, record w { assigned = r ∷ w.assigned });
}

abbrev pub federation : FederationClient World
federation = record {
  get_identity_provider = λ i w. (ok true, w);
  create_identity_provider = λ i r d w. (ok tt, w);
  get_federation_protocol = λ i p w. (ok true, w);
  create_federation_protocol = λ i p m w. (ok tt, w);
  get_mapping = λ m w. (ok w.mapping, w);
  create_mapping = λ m r w. (ok tt, record w { mapping = some (some r) });
  update_mapping = λ m r w. (ok tt, record w { mapping = some (some r) });
}

abbrev pub config : FederationConfig
config = record { idp_name = "sunet"; idp_remote_id = "https://idp"; sso_domain = "sso" }

abbrev pub same : String → String
same s = s
