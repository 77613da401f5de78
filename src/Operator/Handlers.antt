-- ===== src/Operator/Handlers.antt =====
-- The kopf handlers of OpenstackProject (openstack-operator/src/handlers.py): the CR, its status and
-- its patch, the services that a handler calls, and the steps that handlers share. `self.mapping_name`
-- and the other fields of a `FederationManager` are those of its settings.
pub mod Create
pub mod Update
pub mod Delete
pub mod Reconcile
pub mod Gauge
pub mod Outcome
pub mod Conflict
use openstack_keystone.Prelude.{
  ℕ, String, Bool, true, false, ◌&&◌, Option, none, some, List, [], ◌∷◌, present, or_else, is_some,
  concat, truthy, if◌then◌else◌,
}
use openstack_keystone.Exec.{
  Error, permanent, exception, Exec, pure, raise, modify, ◌>>=◌, ◌>>◌, catch, if_found,
}
use openstack_keystone.Dict.{Dict}
use openstack_keystone.Operator.Naming.{make_group_name}
use openstack_keystone.Operator.Claims.{ProjectCr}
use openstack_keystone.Operator.Conditions.{Condition, set_condition}
use openstack_keystone.Operator.Client.{IdentityClient, Group}
use openstack_keystone.Operator.Registry
use openstack_keystone.Operator.Registry.{text, RegistryHandle}
use openstack_keystone.Operator.RoleBinding.{RoleBinding}
use openstack_keystone.Operator.Federation.{
  FederationClient, FederationConfig, mapping_name, add_project_mapping, remove_project_mapping,
}
use openstack_keystone.Operator.FederationConfig.{FederationRef, get_federation_config}
use openstack_keystone.Operator.Network.{NetworkClient, NetworkSpec, NetworkStatus}
use openstack_keystone.Operator.SecurityGroup.{
  SecurityGroupClient, SecurityGroupSpec, SecurityGroupStatus,
}
use openstack_keystone.Operator.Quota.{QuotaClient, Quotas}
use openstack_keystone.Operator.TransitKey.{BaoApi}
use openstack_keystone.Operator.Handling.{Handling, on_cloud, set_patch, set_patch_at}

pub record ProjectSpec (Q : Type 0) : Type 0 where
  pub name : Option String
  pub domain : Option String
  pub description : Option String
  pub enabled : Option Bool
  pub contract_number : Option String
  pub quotas : Option (Quotas Q)
  pub networks : Option (List NetworkSpec)
  pub security_groups : Option (List SecurityGroupSpec)
  pub role_bindings : Option (List RoleBinding)
  pub managed : Option Bool
  pub federation_ref : Option FederationRef

pub record ProjectStatus : Type 0 where
  pub phase : Option String
  pub project_id : Option String
  pub group_id : Option String
  pub networks : Option (List NetworkStatus)
  pub security_groups : Option (List SecurityGroupStatus)
  pub conditions : Option (List Condition)

-- `patch.status`: a key that is not set is none, and `some none` sets an ID to null.
pub record ProjectPatch : Type 0 where
  pub phase : Option String
  pub observed_generation : Option ℕ
  pub conditions : Option (List Condition)
  pub project_id : Option (Option String)
  pub group_id : Option (Option String)
  pub networks : Option (List NetworkStatus)
  pub security_groups : Option (List SecurityGroupStatus)
  pub last_sync_time : Option String

-- The metadata of the CR that a handler reads.
pub record CrMeta : Type 0 where
  pub cr_namespace : String
  pub cr_name : String
  pub creation_timestamp : Option String
  pub generation : Option ℕ

-- Everything outside a handler. `get_core_api` loads the Kubernetes configuration,
-- `list_project_crs` is the API call, and `allowed` the set that
-- `_allowed_roles` returns.
pub record Services (Q W : Type 0) : Type 0 where
  pub identity : IdentityClient W
  pub federation : FederationClient W
  pub networks : NetworkClient W
  pub security_groups : SecurityGroupClient W
  pub quotas : QuotaClient Q W
  pub bao : BaoApi W
  pub registry : RegistryHandle W
  pub get_core_api : Exec W Unit
  pub list_project_crs : Exec W (List ProjectCr)
  pub read_config_map : String → String → Exec W (Option (Dict String))
  pub now : W → String
  pub is_valid_uuid : String → Bool
  pub lower : String → String
  pub allowed : List String

abbrev pub ProjectRun : Type 0 → Type 0
ProjectRun W = Handling W ProjectPatch

unfoldable pub set_phase : String → ProjectPatch → ProjectPatch
set_phase phase p = record p { phase = some phase }

-- `_set_patch_condition`, at a time
unfoldable pub put_condition :
    String → String → String → String → String → ProjectPatch → ProjectPatch
unfolding set_condition
put_condition condition_type condition_status reason message now p = record p {
  conditions =
      some (
        set_condition now condition_type condition_status reason message (or_else p.conditions []));
}

module _ {Q W : Type 0} (services : Services Q W) where
  open services use {
    identity, federation, registry, get_core_api, list_project_crs, read_config_map, now,
    is_valid_uuid, lower,
  }

  -- `_set_patch_condition`
  unfoldable pub condition : String → String → String → String → Exec (ProjectRun W) Unit
  condition condition_type condition_status reason message =
      modify (set_patch_at now (put_condition condition_type condition_status reason message))

  unfoldable pub synced : Exec (ProjectRun W) Unit
  synced = modify (set_patch_at now (λ t p. record p { last_sync_time = some t }))

  -- the end of a run that succeeded
  unfoldable pub ready : Exec (ProjectRun W) Unit
  ready = modify (set_patch (set_phase "Ready")) >> synced

  -- what `except Exception` notes in the patch
  unfoldable pub note_error : String → Exec (ProjectRun W) Unit
  note_error message =
      modify (set_patch (set_phase "Error")) >> condition "Ready" "False" "Error" message

  -- the `try` of `_list_project_crs`: none where the CRs cannot be listed
  unfoldable pub try_list_project_crs : Exec W (Option (List ProjectCr))
  try_list_project_crs = catch (list_project_crs >>= λ crs. pure (some crs)) (λ e. pure none)

  -- `_list_project_crs`: what `get_k8s_core_api` raises before the `try` is not caught
  unfoldable pub listed_project_crs : Exec W (Option (List ProjectCr))
  listed_project_crs = get_core_api >> try_list_project_crs

  -- spec.name and spec.domain, or a PermanentError
  unfoldable pub required : ProjectSpec Q → Exec (ProjectRun W) (String × String)
  required spec =
      if present spec.name && present spec.domain
      then pure (or_else spec.name "", or_else spec.domain "")
      else raise (permanent "spec.name and spec.domain are required")

  -- `fed_config and fed_config["idp_name"]`
  unfoldable pub usable : Option FederationConfig → Option FederationConfig
  usable none = none
  usable (some config) = if truthy config.idp_name then some config else none

  unfoldable pub federation_settings :
      String → Option FederationRef → Exec W (Option FederationConfig)
  unfolding usable
  federation_settings namespace ref = do
    config ← get_federation_config read_config_map namespace ref
    pure (usable config)

  unfoldable pub register_mapping : String → String → FederationConfig → Exec W Unit
  register_mapping cr_name project_name config =
      Registry.register registry.api registry.json registry.namespace "federation_mappings"
        project_name (mapping_name config) cr_name (("idp_name", text config.idp_name) ∷ [])

  -- the mapping for the users, and its entry in the registry
  unfoldable pub add_mapping : String → String → List String → FederationConfig → Exec W Unit
  add_mapping cr_name project_name users config = do
    add_project_mapping lower identity federation config project_name users
    register_mapping cr_name project_name config

  unfoldable pub drop_mapping : String → FederationConfig → Exec W Unit
  drop_mapping project_name config = do
    remove_project_mapping lower identity federation config project_name
    Registry.unregister registry.api registry.json registry.namespace "federation_mappings"
        project_name

  -- `_resolve_group_id` once the group was looked up by name
  unfoldable pub corrected : Option Group → Exec (ProjectRun W) (Option String)
  corrected none = pure none
  corrected (some group) =
      modify (set_patch (λ p. record p { group_id = some (some group.id) })) >> pure (some group.id)

  unfoldable pub group_by_name : String → String → Exec (ProjectRun W) (Option String)
  group_by_name project_name domain =
      on_cloud (identity.get_group (make_group_name lower project_name) domain) >>= corrected

  -- `_resolve_group_id`
  unfoldable pub resolve_group_id :
      Option String → String → String → Exec (ProjectRun W) (Option String)
  resolve_group_id group_id project_name domain =
      if present group_id
      then (if is_valid_uuid (or_else group_id "")
          then (do
            found ← on_cloud (identity.get_group_by_id (or_else group_id ""))
            if is_some found then pure group_id else group_by_name project_name domain)
          else group_by_name project_name domain)
      else pure none
