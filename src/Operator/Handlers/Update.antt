-- ===== src/Operator/Handlers/Update.antt =====
-- `update_project` (openstack-operator/src/handlers.py), with `_is_contract_tag_only_update`.
pub mod Diff
use openstack_keystone.Prelude.{
  ℕ, String, Bool, true, false, not, ◌&&◌, Option, none, some, List, [], ◌∷◌, map, present, or_else,
  is_some, if◌then◌else◌,
}
use openstack_keystone.Exec.{
  Error, Result, Exec, pure, raise, lift, modify, ◌>>=◌, ◌>>◌, catch, if_found,
}
use openstack_keystone.Operator.RoleBinding.{
  RoleBinding, apply_role_bindings, get_users_from_role_bindings,
}
use openstack_keystone.Operator.Federation.{FederationConfig, is_empty}
use openstack_keystone.Operator.FederationConfig.{FederationRef}
use openstack_keystone.Operator.Network.{
  NetworkSpec, NetworkStatus, ensure_networks, delete_networks,
}
use openstack_keystone.Operator.SecurityGroup.{
  SecurityGroupSpec, SecurityGroupStatus, ensure_security_groups, delete_security_groups,
}
use openstack_keystone.Operator.Quota.{Quotas, apply_quotas}
use openstack_keystone.Operator.Handling.{
  Handling, on_cloud, set_patch, increment, decrement, finally, fail_unless_permanent,
}
use openstack_keystone.Operator.Handlers.{
  ProjectSpec, ProjectStatus, ProjectPatch, CrMeta, Services, ProjectRun, condition, ready,
  note_error, required, federation_settings, add_mapping, drop_mapping, resolve_group_id,
}
use openstack_keystone.Operator.Handlers.Create.{bind_roles, create_project}
use openstack_keystone.Operator.Handlers.Update.Diff.{
  Change, is_contract_tag_only_update, changes_description, mentions,
}

-- `if key in status and key not in patch.status: patch.status[key] = status[key]`
unfoldable pub kept : {A : Type 0} → Option A → Option A → Option A
kept (some in_patch) in_status = some in_patch
kept none in_status = in_status

-- an ID of the status, as the patch would have it
unfoldable pub as_patch : Option String → Option (Option String)
as_patch none = none
as_patch (some id) = some (some id)

unfoldable pub preserve : CrMeta → ProjectStatus → ProjectPatch → ProjectPatch
unfolding kept as_patch
preserve meta status p = record p {
  phase = some "Provisioning";
  observed_generation = some (or_else meta.generation 1);
  project_id = kept p.project_id (as_patch status.project_id);
  group_id = kept p.group_id (as_patch status.group_id);
  networks = kept p.networks status.networks;
  security_groups = kept p.security_groups status.security_groups;
  conditions = kept p.conditions status.conditions;
}

module _ {Q W : Type 0} (services : Services Q W) where
  open services use {identity, networks, security_groups, quotas}

  unfoldable pub update_description :
      String → ProjectSpec Q → List Change → Exec (ProjectRun W) Unit
  update_description project_id spec diff = do
    described ← lift (changes_description diff)
    if described
        then on_cloud (
            identity.update_project project_id (or_else spec.description "")
              (or_else spec.enabled true))
        else pure tt

  unfoldable pub update_quotas : String → ProjectSpec Q → List Change → Exec (ProjectRun W) Unit
  update_quotas project_id spec diff =
      if mentions "quotas" diff
      then (do
        on_cloud (
            apply_quotas quotas project_id
              (or_else spec.quotas (record { compute = none; storage = none; network = none })))
        condition services "QuotasReady" "True" "Updated" "")
      else pure tt

  -- the networks of the status are deleted, and those of the CR made
  unfoldable pub replace_networks :
      String → List NetworkSpec → List NetworkStatus → Exec (ProjectRun W) Unit
  replace_networks project_id specs old = do
    on_cloud (delete_networks networks old)
    if is_empty specs then modify (set_patch (λ p. record p { networks = some [] })) else (do
      statuses ← on_cloud (ensure_networks networks project_id specs)
      modify (set_patch (λ p. record p { networks = some statuses })))
    condition services "NetworksReady" "True" "Updated" ""

  unfoldable pub replace_security_groups :
      String → List SecurityGroupSpec → List SecurityGroupStatus → Exec (ProjectRun W) Unit
  replace_security_groups project_id specs old = do
    on_cloud (
        delete_security_groups security_groups (map (λ (sg : SecurityGroupStatus). some sg.id) old))
    if is_empty specs then modify (set_patch (λ p. record p { security_groups = some [] })) else (do
      statuses ← on_cloud (ensure_security_groups security_groups project_id specs)
      modify (set_patch (λ p. record p { security_groups = some statuses })))
    condition services "SecurityGroupsReady" "True" "Updated" ""

  unfoldable pub remap_users :
      String → String → List RoleBinding → FederationConfig → Exec (ProjectRun W) Unit
  remap_users cr_name project_name bindings config = do
    if is_empty (get_users_from_role_bindings bindings)
        then on_cloud (drop_mapping services project_name config)
        else on_cloud (
            add_mapping services cr_name project_name (get_users_from_role_bindings bindings)
              config)
    condition services "FederationReady" "True" "Updated" ""

  unfoldable pub update_mapping_of :
      CrMeta → String → ProjectSpec Q → Bool → Exec (ProjectRun W) Unit
  update_mapping_of meta project_name spec tag_only =
      if is_some spec.federation_ref && (not (or_else spec.managed false) && not tag_only)
      then (do
        config ← on_cloud (federation_settings services meta.cr_namespace spec.federation_ref)
        if_found config (remap_users meta.cr_name project_name (or_else spec.role_bindings [])))
      else pure tt

  -- the rest of the `try` for a project that has an ID
  unfoldable pub update_existing :
      CrMeta
      → ProjectSpec Q
      → ProjectStatus
      → List Change
      → String
      → String
      → String
      → Option String
      → Exec (ProjectRun W) Unit
  update_existing meta spec status diff project_name domain project_id group_id = do
    update_description project_id spec diff
    on_cloud (identity.set_project_contract_tag project_id spec.contract_number)
    update_quotas project_id spec diff
    if mentions "networks" diff
        then replace_networks project_id (or_else spec.networks []) (or_else status.networks [])
        else pure tt
    if mentions "securityGroups" diff
        then replace_security_groups project_id (or_else spec.security_groups [])
            (or_else status.security_groups [])
        else pure tt
    if is_contract_tag_only_update diff
        then pure tt
        else bind_roles services project_id group_id (or_else spec.role_bindings []) domain
            (or_else spec.managed false)
    update_mapping_of meta project_name spec (is_contract_tag_only_update diff)
    ready services

  -- without a project ID the update is a creation, which counts as a run of its own
  unfoldable pub update_or_create :
      CrMeta
      → ProjectSpec Q
      → ProjectStatus
      → List Change
      → String
      → String
      → Option String
      → Exec (ProjectRun W) Unit
  update_or_create meta spec status diff project_name domain group_id =
      if present status.project_id
      then update_existing meta spec status diff project_name domain (or_else status.project_id "")
          group_id
      else (modify decrement >> create_project services meta spec)

  unfoldable pub update_body :
      CrMeta → ProjectSpec Q → ProjectStatus → List Change → Exec (ProjectRun W) Unit
  update_body meta spec status diff = do
    names ← required services spec
    group_id ← resolve_group_id services status.group_id names.0 names.1
    update_or_create meta spec status diff names.0 names.1 group_id

  unfoldable pub update_project :
      CrMeta → ProjectSpec Q → ProjectStatus → List Change → Exec (ProjectRun W) Unit
  update_project meta spec status diff = do
    modify increment
    modify (set_patch (preserve meta status))
    finally
        (catch (update_body meta spec status diff)
          (fail_unless_permanent (note_error services) "UpdateFailed" "Update failed: "))
        decrement
