-- ===== src/Operator/Client.antt =====
-- The methods of `OpenStackClient` (openstack-operator/src/openstack_client.py) that the resource
-- managers call, as interfaces by service, and the objects of the SDK that they return with the
-- attributes the program reads. Every call may raise.
use openstack_keystone.Prelude.{String, Bool, Option, List}
use openstack_keystone.Exec.{Exec}

pub record Domain : Type 0 where
  pub id : String
  pub name : String
  pub description : String
  pub is_enabled : Bool

pub record Project : Type 0 where
  pub id : String
  pub name : String
  pub description : String
  pub is_enabled : Bool

pub record Group : Type 0 where
  pub id : String

pub record Role : Type 0 where
  pub id : String

pub record User : Type 0 where
  pub id : String
  pub name : String

pub record IdentityClient (W : Type 0) : Type 0 where
  pub get_domain : String → Exec W (Option Domain)
  pub create_domain : String → String → Bool → Exec W Domain
  pub update_domain : String → String → Bool → Exec W Unit
  pub delete_domain : String → Exec W Unit
  pub get_project : String → String → Exec W (Option Project)
  pub list_projects_with_tag : String → String → Exec W (List Project)
  pub create_project : String → String → String → Bool → Exec W Project
  pub update_project : String → String → Bool → Exec W Unit
  pub delete_project : String → Exec W Unit
  pub add_project_tag : String → String → Exec W Unit
  pub set_project_contract_tag : String → Option String → Exec W Unit
  pub get_group : String → String → Exec W (Option Group)
  pub get_group_by_id : String → Exec W (Option Group)
  pub create_group : String → String → String → Exec W Group
  pub delete_group : String → Exec W Unit
  pub get_user : String → String → Exec W (Option User)
  pub add_user_to_group : String → String → Exec W Unit
  pub remove_user_from_group : String → String → Exec W Unit
  pub list_group_users : String → Exec W (List User)
  pub get_role : String → Exec W (Option Role)
  pub assign_role_to_group : String → String → String → Exec W Unit
  pub assign_role_to_user : String → String → String → Exec W Unit
