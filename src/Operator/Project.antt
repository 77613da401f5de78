-- ===== src/Operator/Project.antt =====
-- A Keystone project and its user group (openstack-operator/src/resources/project.py).
pub mod Teardown
use openstack_keystone.Prelude.{
  String, Bool, true, false, not, ◌&&◌, ◌||◌, Option, none, some, List, [], ◌∷◌, ◌==◌, concat,
  present, or_else, truthy, if◌then◌else◌,
}
use openstack_keystone.Exec.{Exec, pure, ◌>>=◌, ◌>>◌, catch, for_each, if_found}
use openstack_keystone.Operator.Naming.{make_group_name}
use openstack_keystone.Operator.Client.{IdentityClient, Project, Group, Role}
use openstack_keystone.Operator.Garbage.{managed_by_tag}

abbrev pub managed_by_description_prefix : String
managed_by_description_prefix = "[managed-by-openstack-operator] "

-- `a != b` on Booleans
abbrev pub differs : Bool → Bool → Bool
differs true b = not b
differs false b = b

module _ (lower : String → String) {W : Type 0} (client : IdentityClient W) where
  open client use {
    get_project, create_project, update_project, delete_project, add_project_tag,
    set_project_contract_tag, get_group, create_group, delete_group, get_role, assign_role_to_group,
  }

  -- the project that was found, updated where it differs, or a new one; both get the tag
  unfoldable pub ensure_project_record :
      String → String → String → Bool → Option Project → Exec W String
  ensure_project_record name domain description enabled (some project) = do
    if not (project.description == description) || differs project.is_enabled enabled
        then update_project project.id description enabled
        else pure tt
    add_project_tag project.id managed_by_tag
    pure project.id
  ensure_project_record name domain description enabled none = do
    project ← create_project name domain description enabled
    add_project_tag project.id managed_by_tag
    pure project.id

  unfoldable pub ensure_group_record : String → String → Option Group → Exec W String
  ensure_group_record name domain (some group) = pure group.id
  ensure_group_record name domain none = do
    group ←
        create_group (make_group_name lower name) domain
          (concat managed_by_description_prefix (concat "Users for " name))
    pure group.id

  -- one round of the loop over ("member", "reader")
  unfoldable pub assign_default_role : String → String → String → Exec W Unit
  assign_default_role group_id project_id role_name = do
    role ← get_role role_name
    if_found role (λ r. assign_role_to_group r.id group_id project_id)

  unfoldable pub ensure_project :
      String → String → String → Bool → Option String → Exec W (String × String)
  ensure_project name domain description enabled contract_number = do
    found ← get_project name domain
    project_id ← ensure_project_record name domain description enabled found
    set_project_contract_tag project_id contract_number
    group ← get_group (make_group_name lower name) domain
    group_id ← ensure_group_record name domain group
    for_each ("member" ∷ "reader" ∷ []) (assign_default_role group_id project_id)
    pure (project_id, group_id)

  -- `delete_project`: the group first, each failure only logged
  unfoldable pub delete_project_and_group : String → Option String → Exec W Unit
  delete_project_and_group project_id group_id = do
    if present group_id then catch (delete_group (or_else group_id "")) (λ e. pure tt) else pure tt
    catch (delete_project project_id) (λ e. pure tt)

  unfoldable pub info_of :
      String → String → Option Project → Exec W (Option (String × Option String))
  info_of name domain none = pure none
  info_of name domain (some project) = do
    group ← get_group (make_group_name lower name) domain
    pure (some (project.id, (elim group [ none ↦ none | some g ↦ some g.id ])))

  -- `get_project_info`: the project's ID and its group's, if it exists
  unfoldable pub get_project_info : String → String → Exec W (Option (String × Option String))
  unfolding info_of
  get_project_info name domain = do project ← get_project name domain; info_of name domain project
