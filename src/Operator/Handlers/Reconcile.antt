-- ===== src/Operator/Handlers/Reconcile.antt =====
-- `reconcile_project` (openstack-operator/src/handlers.py): the timer that repairs drift.
use openstack_keystone.Prelude.{
  String, Bool, false, ◌&&◌, Option, none, some, List, [], present, or_else, is_some, if◌then◌else◌,
}
use openstack_keystone.Exec.{
  exception, Result, ok, err, Exec, pure, lift, modify, ◌>>=◌, ◌>>◌, catch, if_found,
}
use openstack_keystone.Operator.Claims.{is_text}
use openstack_keystone.Operator.RoleBinding.{
  RoleBinding, apply_role_bindings, get_users_from_role_bindings,
}
use openstack_keystone.Operator.Federation.{FederationConfig, is_empty}
use openstack_keystone.Operator.FederationConfig.{FederationRef}
use openstack_keystone.Operator.Project.{get_project_info}
use openstack_keystone.Operator.TransitKey.{ensure_transit_key}
use openstack_keystone.Operator.Handling.{on_cloud, set_patch}
use openstack_keystone.Operator.Handlers.{
  ProjectSpec, ProjectStatus, ProjectPatch, CrMeta, Services, ProjectRun, synced,
  federation_settings, add_mapping, drop_mapping, resolve_group_id,
}

-- The patch that asks for the project to be made again, or adopted under its real IDs.
unfoldable pub pending : Option String → Option String → ProjectPatch → ProjectPatch
pending project_id group_id p = record p {
  phase = some "Pending";
  project_id = some project_id;
  group_id = some group_id;
}

-- `spec[k]`
unfoldable pub index_spec : Option String → Result String
index_spec none = err (exception "KeyError")
index_spec (some v) = ok v

module _ {Q W : Type 0} (services : Services Q W) where
  open services use {identity, bao, lower, allowed}

  -- the role bindings, where the status has a project and the group is found
  unfoldable pub rebind :
      String → Bool → List RoleBinding → Option String → Option String → Exec (ProjectRun W) Unit
  rebind domain managed bindings project_id group_id =
      if present project_id && present group_id
      then on_cloud (
          apply_role_bindings identity allowed (or_else project_id "") (or_else group_id "")
            bindings domain managed)
      else pure tt

  unfoldable pub reconcile_roles :
      ProjectStatus → String → String → Bool → List RoleBinding → Exec (ProjectRun W) Unit
  reconcile_roles status project_name domain managed bindings =
      if is_empty bindings
      then pure tt
      else (resolve_group_id services status.group_id project_name domain
          >>= rebind domain managed bindings status.project_id)

  unfoldable pub repair_mapping :
      CrMeta → String → Bool → List RoleBinding → FederationConfig → Exec W Unit
  repair_mapping meta project_name managed bindings config =
      if managed
      then drop_mapping services project_name config
      else if is_empty (get_users_from_role_bindings bindings)
      then pure tt
      else add_mapping services meta.cr_name project_name (get_users_from_role_bindings bindings)
          config

  unfoldable pub reconcile_mapping :
      CrMeta → String → Bool → Option FederationRef → List RoleBinding → Exec (ProjectRun W) Unit
  reconcile_mapping meta project_name managed ref bindings =
      if is_some ref
      then (if is_empty bindings then pure tt else (do
        config ← on_cloud (federation_settings services meta.cr_namespace ref)
        if_found config (λ c. on_cloud (repair_mapping meta project_name managed bindings c))))
      else pure tt

  -- the project is there under the ID of the status
  unfoldable pub repair :
      CrMeta → ProjectSpec Q → ProjectStatus → String → String → String → Exec (ProjectRun W) Unit
  repair meta spec status project_name domain project_id = do
    catch (on_cloud (ensure_transit_key bao project_id) >> pure tt) (λ e. pure tt)
    reconcile_roles status project_name domain (or_else spec.managed false)
        (or_else spec.role_bindings [])
    reconcile_mapping meta project_name (or_else spec.managed false) spec.federation_ref
        (or_else spec.role_bindings [])
    synced services

  -- what is done with the project's ID and its group's
  unfoldable pub compare_info :
      CrMeta
      → ProjectSpec Q
      → ProjectStatus
      → String
      → String
      → Option (String × Option String)
      → Exec (ProjectRun W) Unit
  unfolding pending
  compare_info meta spec status project_name domain none = modify (set_patch (pending none none))
  compare_info meta spec status project_name domain (some (project_id, group_id)) =
      if is_text status.project_id project_id
      then repair meta spec status project_name domain project_id
      else modify (set_patch (pending (some project_id) group_id))

  unfoldable pub reconcile_named :
      CrMeta → ProjectSpec Q → ProjectStatus → String → String → Exec (ProjectRun W) Unit
  reconcile_named meta spec status project_name domain =
      catch
        (on_cloud (get_project_info lower identity project_name domain)
          >>= compare_info meta spec status project_name domain)
        λ e. pure tt

  unfoldable pub reconcile_project :
      CrMeta → ProjectSpec Q → ProjectStatus → Exec (ProjectRun W) Unit
  unfolding index_spec
  reconcile_project meta spec status =
      if is_text status.phase "Ready"
      then (do
        project_name ← lift (index_spec spec.name)
        domain ← lift (index_spec spec.domain)
        reconcile_named meta spec status project_name domain)
      else pure tt
