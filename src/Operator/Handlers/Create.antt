-- ===== src/Operator/Handlers/Create.antt =====
-- `create_project` (openstack-operator/src/handlers.py).
use openstack_keystone.Prelude.{
  String, Bool, true, false, not, ◌&&◌, ◌||◌, Option, none, some, List, [], present, or_else,
  is_some, concat, take, if◌then◌else◌,
}
use openstack_keystone.Exec.{exception, Exec, pure, raise, modify, ◌>>=◌, ◌>>◌, catch, if_found}
use openstack_keystone.Operator.Claims.{ProjectCr, find_project_owner_cr}
use openstack_keystone.Operator.RoleBinding.{
  RoleBinding, apply_role_bindings, get_users_from_role_bindings,
}
use openstack_keystone.Operator.Federation.{FederationConfig, is_empty}
use openstack_keystone.Operator.FederationConfig.{FederationRef}
use openstack_keystone.Operator.Network.{NetworkSpec, ensure_networks}
use openstack_keystone.Operator.SecurityGroup.{SecurityGroupSpec, ensure_security_groups}
use openstack_keystone.Operator.Project.{ensure_project}
use openstack_keystone.Operator.Quota.{Quotas, apply_quotas}
use openstack_keystone.Operator.TransitKey.{ensure_transit_key}
use openstack_keystone.Operator.Handling.{
  error_text, on_cloud, set_patch, increment, decrement, finally, fail_unless_permanent,
}
use openstack_keystone.Operator.Handlers.{
  ProjectSpec, ProjectPatch, CrMeta, Services, ProjectRun, condition, ready, note_error,
  listed_project_crs, required, federation_settings, add_mapping,
}

-- `if quotas:`, of a dict that has the sections that are there
unfoldable pub has_sections : {Q : Type 0} → Quotas Q → Bool
has_sections quotas = is_some quotas.compute || (is_some quotas.storage || is_some quotas.network)

-- The patch of a run that begins.
unfoldable pub start_patch : CrMeta → ProjectPatch → ProjectPatch
start_patch meta p = record p {
  phase = some "Provisioning";
  conditions = some [];
  observed_generation = some (or_else meta.generation 1);
}

module _ {Q W : Type 0} (services : Services Q W) where
  open services use {identity, networks, security_groups, quotas, bao, lower, allowed}

  -- what is done with the list of CRs, if there is one
  unfoldable pub refuse_if_owned :
      CrMeta → String → String → Option (List ProjectCr) → Exec (ProjectRun W) Unit
  refuse_if_owned meta project_name domain none = pure tt
  refuse_if_owned meta project_name domain (some cr_items) =
      if present (
        find_project_owner_cr cr_items meta.cr_namespace meta.cr_name
          (or_else meta.creation_timestamp "") project_name domain)
      then raise (exception (concat "Project is already managed: " project_name))
      else pure tt

  unfoldable pub check_owner : CrMeta → String → String → Exec (ProjectRun W) Unit
  check_owner meta project_name domain =
      on_cloud (listed_project_crs services) >>= refuse_if_owned meta project_name domain

  -- 1. the project and its group
  unfoldable pub provision_project :
      ProjectSpec Q → String → String → Exec (ProjectRun W) (String × String)
  provision_project spec project_name domain = do
    condition services "ProjectReady" "False" "Creating" ""
    ids ← on_cloud (
        ensure_project lower identity project_name domain (or_else spec.description "")
          (or_else spec.enabled true) spec.contract_number)
    modify
        (set_patch (λ p. record p { project_id = some (some ids.0); group_id = some (some ids.1) }))
    condition services "ProjectReady" "True" "Created" ""
    pure ids

  -- the transit key, whose failure only shows in a condition
  unfoldable pub provision_key : String → Exec (ProjectRun W) Unit
  provision_key project_id =
      catch
        (do
          there ← on_cloud (ensure_transit_key bao project_id)
          if there then condition services "KMSReady" "True" "Provisioned" "" else pure tt)
        λ e. condition services "KMSReady" "False" "Error" (take 200 (error_text e))

  -- 2. quotas
  unfoldable pub provision_quotas : String → Quotas Q → Exec (ProjectRun W) Unit
  provision_quotas project_id wanted =
      if has_sections wanted
      then (do
        condition services "QuotasReady" "False" "Applying" ""
        on_cloud (apply_quotas quotas project_id wanted)
        condition services "QuotasReady" "True" "Applied" "")
      else pure tt

  -- 3. networks
  unfoldable pub provision_networks : String → List NetworkSpec → Exec (ProjectRun W) Unit
  provision_networks project_id specs = if is_empty specs then pure tt else do
    condition services "NetworksReady" "False" "Creating" ""
    statuses ← on_cloud (ensure_networks networks project_id specs)
    modify (set_patch (λ p. record p { networks = some statuses }))
    condition services "NetworksReady" "True" "Created" ""

  -- 4. security groups
  unfoldable pub provision_security_groups :
      String → List SecurityGroupSpec → Exec (ProjectRun W) Unit
  provision_security_groups project_id specs = if is_empty specs then pure tt else do
    condition services "SecurityGroupsReady" "False" "Creating" ""
    statuses ← on_cloud (ensure_security_groups security_groups project_id specs)
    modify (set_patch (λ p. record p { security_groups = some statuses }))
    condition services "SecurityGroupsReady" "True" "Created" ""

  -- 5. role bindings
  unfoldable pub bind_roles :
      String → Option String → List RoleBinding → String → Bool → Exec (ProjectRun W) Unit
  bind_roles project_id group_id bindings domain managed =
      if is_empty bindings
      then pure tt
      else on_cloud (
          apply_role_bindings identity allowed project_id (or_else group_id "") bindings domain
            managed)

  unfoldable pub map_users :
      String → String → List RoleBinding → FederationConfig → Exec (ProjectRun W) Unit
  map_users cr_name project_name bindings config = do
    condition services "FederationReady" "False" "Configuring" ""
    if is_empty (get_users_from_role_bindings bindings)
        then pure tt
        else on_cloud (
            add_mapping services cr_name project_name (get_users_from_role_bindings bindings)
              config)
    condition services "FederationReady" "True" "Configured" ""

  -- 6. the federation mapping, unless the project is managed
  unfoldable pub provision_mapping :
      CrMeta → String → Option FederationRef → List RoleBinding → Bool → Exec (ProjectRun W) Unit
  provision_mapping meta project_name ref bindings managed =
      if is_some ref && (not (is_empty bindings) && not managed)
      then (do
        config ← on_cloud (federation_settings services meta.cr_namespace ref)
        if_found config (map_users meta.cr_name project_name bindings))
      else pure tt

  -- the steps after the project is made
  unfoldable pub provision_rest :
      CrMeta → ProjectSpec Q → String → String → String × String → Exec (ProjectRun W) Unit
  provision_rest meta spec project_name domain ids = do
    provision_key ids.0
    provision_quotas ids.0
        (or_else spec.quotas (record { compute = none; storage = none; network = none }))
    provision_networks ids.0 (or_else spec.networks [])
    provision_security_groups ids.0 (or_else spec.security_groups [])
    bind_roles ids.0 (some ids.1) (or_else spec.role_bindings []) domain
        (or_else spec.managed false)
    provision_mapping meta project_name spec.federation_ref (or_else spec.role_bindings [])
        (or_else spec.managed false)
    ready services

  unfoldable pub provision : CrMeta → ProjectSpec Q → String → String → Exec (ProjectRun W) Unit
  provision meta spec project_name domain = do
    ids ← provision_project spec project_name domain
    provision_rest meta spec project_name domain ids

  -- the body of the `try`
  unfoldable pub create_body : CrMeta → ProjectSpec Q → Exec (ProjectRun W) Unit
  create_body meta spec = do
    names ← required services spec
    check_owner meta names.0 names.1
    provision meta spec names.0 names.1

  unfoldable pub create_project : CrMeta → ProjectSpec Q → Exec (ProjectRun W) Unit
  create_project meta spec = do
    modify increment
    modify (set_patch (start_patch meta))
    finally
        (catch (create_body meta spec)
          (fail_unless_permanent (note_error services) "CreateFailed" "Creation failed: "))
        decrement
