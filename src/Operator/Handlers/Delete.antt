-- ===== src/Operator/Handlers/Delete.antt =====
-- `delete_project_handler` (openstack-operator/src/handlers.py). The delete handler has no patch, so
-- it runs over any.
use openstack_keystone.Prelude.{
  String, Option, none, some, List, [], map, present, or_else, is_some, if◌then◌else◌,
}
use openstack_keystone.Exec.{temporary, Exec, pure, raise, modify, ◌>>=◌, ◌>>◌, catch, if_found}
use openstack_keystone.Operator.Claims.{ProjectCr, find_duplicate_project_crs}
use openstack_keystone.Operator.Federation.{is_empty}
use openstack_keystone.Operator.FederationConfig.{FederationRef}
use openstack_keystone.Operator.Network.{delete_networks}
use openstack_keystone.Operator.SecurityGroup.{SecurityGroupStatus, delete_security_groups}
use openstack_keystone.Operator.Project.{delete_project_and_group}
use openstack_keystone.Operator.Handling.{on_cloud, increment, decrement, emit, finally, fail}
use openstack_keystone.Operator.Handlers.{
  ProjectSpec, ProjectStatus, CrMeta, Services, ProjectRun, listed_project_crs, federation_settings,
  drop_mapping,
}

module _ {Q W : Type 0} (services : Services Q W) where
  open services use {identity, networks, security_groups, lower}

  -- 1. the federation mapping
  unfoldable pub delete_mapping : CrMeta → String → Option FederationRef → Exec (ProjectRun W) Unit
  delete_mapping meta project_name ref =
      if is_some ref
      then (do
        config ← on_cloud (federation_settings services meta.cr_namespace ref)
        if_found config (λ c. on_cloud (drop_mapping services project_name c)))
      else pure tt

  -- the body of the `try`; an empty list of statuses deletes nothing
  unfoldable pub delete_body :
      CrMeta → ProjectSpec Q → ProjectStatus → String → String → Exec (ProjectRun W) Unit
  delete_body meta spec status project_name project_id = do
    delete_mapping meta project_name spec.federation_ref
    on_cloud (
        delete_security_groups security_groups
          (map (λ (sg : SecurityGroupStatus). some sg.id) (or_else status.security_groups [])))
    on_cloud (delete_networks networks (or_else status.networks []))
    on_cloud (delete_project_and_group lower identity project_id status.group_id)

  unfoldable pub delete_unreferenced :
      CrMeta → ProjectSpec Q → ProjectStatus → String → String → Exec (ProjectRun W) Unit
  delete_unreferenced meta spec status project_name project_id =
      finally
        (catch (delete_body meta spec status project_name project_id)
          (fail (λ message. pure tt) "DeleteFailed" "Deletion failed: "))
        decrement

  -- what is done with the list of CRs: without one, nothing is deleted
  unfoldable pub delete_if_unreferenced :
      CrMeta
      → ProjectSpec Q
      → ProjectStatus
      → String
      → String
      → String
      → Option (List ProjectCr)
      → Exec (ProjectRun W) Unit
  delete_if_unreferenced meta spec status project_name domain project_id none = do
    modify decrement
    raise (temporary "Could not list OpenstackProject CRs")
  delete_if_unreferenced meta spec status project_name domain project_id (some cr_items) =
      if is_empty
        (find_duplicate_project_crs cr_items meta.cr_namespace meta.cr_name project_name domain)
      then delete_unreferenced meta spec status project_name project_id
      else (modify (emit "DeletionSkipped") >> modify decrement)

  unfoldable pub delete_project_handler :
      CrMeta → ProjectSpec Q → ProjectStatus → Exec (ProjectRun W) Unit
  delete_project_handler meta spec status = do
    modify increment
    if present status.project_id
        then (on_cloud (listed_project_crs services)
            >>= delete_if_unreferenced meta spec status (or_else spec.name "")
                (or_else spec.domain "") (or_else status.project_id ""))
        else modify decrement
