-- ===== src/Operator/Garbage.antt =====
-- Garbage collection of projects (openstack-operator/src/resources/garbage_collection.py):
-- `collect_garbage`, its federation clean-up, and what it takes from the CRs. The dict of results
-- is part of the state here, since it is written while calls may still raise.
pub mod Expected
use openstack_keystone.Prelude.{
  String, Bool, true, false, not, ◌&&◌, ◌||◌, Option, none, some, List, [], ◌∷◌, ◌++◌, contains,
  truthy, present, is_some, or_else, concat, if◌then◌else◌,
}
use openstack_keystone.Exec.{
  Error, exception, Result, ok, err, Exec, pure, lift, gets, modify, ◌>>=◌, ◌>>◌, catch, for_each,
  if_found,
}
use openstack_keystone.Dict.{Dict, lookup}
use openstack_keystone.Operator.Naming.{make_group_name}
use openstack_keystone.Operator.Client.{IdentityClient, Domain, Project, Group}
use openstack_keystone.Operator.Registry
use openstack_keystone.Operator.Registry.{Value, text, texts, Info, RegistryHandle}
use openstack_keystone.Operator.Federation.{
  FederationClient, FederationConfig, remove_project_mapping,
}

abbrev pub managed_by_tag : String
managed_by_tag = "managed-by-openstack-operator"

-- `result`, and the list `orphaned_projects` that the two methods share.
pub record Collected : Type 0 where
  pub deleted_projects : List String
  pub deleted_groups : List String
  pub deleted_mappings : List String
  pub orphaned_projects : List String

abbrev pub nothing : Collected
nothing = record {
  deleted_projects = [];
  deleted_groups = [];
  deleted_mappings = [];
  orphaned_projects = [];
}

-- The cloud and the results.
pub record Run (W : Type 0) : Type 0 where
  pub cloud : W
  pub collected : Collected

module _ {W A : Type 0} where
  -- A call of a client in a run.
  unfoldable pub call : Exec W A → Exec (Run W) A
  call m s = let (r, w) = m s.cloud in (r, record s { cloud = w })

module _ {W : Type 0} where
  unfoldable pub note_project : String → Run W → Run W
  note_project n s = record s {
    collected = record s.collected { deleted_projects = s.collected.deleted_projects ++ n ∷ [] };
  }

  unfoldable pub note_group : String → Run W → Run W
  note_group n s = record s {
    collected = record s.collected { deleted_groups = s.collected.deleted_groups ++ n ∷ [] };
  }

  unfoldable pub note_mapping : String → Run W → Run W
  note_mapping n s = record s {
    collected = record s.collected { deleted_mappings = s.collected.deleted_mappings ++ n ∷ [] };
  }

  unfoldable pub note_orphan : String → Run W → Run W
  note_orphan n s = record s {
    collected = record s.collected { orphaned_projects = s.collected.orphaned_projects ++ n ∷ [] };
  }

-- `d[k]`, for a key whose value is used as a text
unfoldable pub index_text : String → Info → Result String
unfolding lookup
index_text k info = elim (lookup k info) [
  | none ↦ err (exception "KeyError")
  | some v ↦ elim v [ text s ↦ ok s | texts l ↦ err (exception "TypeError") ]
]

-- `d.get("cr_name", "")`
unfoldable pub cr_name_of : Info → String
unfolding lookup
cr_name_of info = elim (lookup "cr_name" info) [
  | none ↦ ""
  | some v ↦ elim v [ text s ↦ s | texts l ↦ "" ]
]

module _ (lower : String → String) {W : Type 0} (client : IdentityClient W) where
  -- the inner `try` of method 1: one group that the registry has for an orphan's CR
  unfoldable pub delete_registered_group : RegistryHandle W → Info → Exec (Run W) Unit
  delete_registered_group h group_orphan =
      catch
        (do
          group_id ← lift (index_text "id" group_orphan)
          call (client.delete_group group_id)
          name ← lift (index_text "name" group_orphan)
          call (Registry.unregister h.api h.json h.namespace "groups" name)
          modify (note_group name))
        λ e. pure tt

  unfoldable pub delete_registered_project : RegistryHandle W → Info → String → Exec (Run W) Unit
  delete_registered_project h orphan project_name =
      catch
        (do
          project_id ← lift (index_text "id" orphan)
          call (client.delete_project project_id)
          call (Registry.unregister h.api h.json h.namespace "projects" project_name)
          modify (note_project project_name))
        λ e. pure tt

  -- the body of the loop over the orphans of the registry
  unfoldable pub collect_registered_orphan : RegistryHandle W → Info → Exec (Run W) Unit
  collect_registered_orphan h orphan = do
    project_name ← lift (index_text "name" orphan)
    modify (note_orphan project_name)
    group_orphans ← call (Registry.get_by_cr h.api h.json h.namespace "groups" (cr_name_of orphan))
    for_each group_orphans (delete_registered_group h)
    delete_registered_project h orphan project_name

  -- method 1: the orphans of the registry
  unfoldable pub collect_registered : RegistryHandle W → List String → Exec (Run W) Unit
  collect_registered h expected_projects = do
    orphans ← call (Registry.get_orphans h.api h.json h.namespace "projects" expected_projects)
    for_each orphans (collect_registered_orphan h)

  unfoldable pub delete_tagged_group : String → Group → Exec (Run W) Unit
  delete_tagged_group group_name group =
      catch (call (client.delete_group group.id) >> modify (note_group group_name)) λ e. pure tt

  unfoldable pub delete_tagged_project : Project → Exec (Run W) Unit
  delete_tagged_project project =
      catch (call (client.delete_project project.id) >> modify (note_project project.name))
        λ e. pure tt

  -- what is done for a tagged project that no CR expects
  unfoldable pub collect_tagged_orphan : String → Project → Exec (Run W) Unit
  collect_tagged_orphan managed_domain project = do
    modify (note_orphan project.name)
    group ← call (client.get_group (make_group_name lower project.name) managed_domain)
    if_found group (delete_tagged_group (make_group_name lower project.name))
    delete_tagged_project project

  -- method 2: the projects with the operator's tag
  unfoldable pub collect_tagged : String → List String → Domain → Exec (Run W) Unit
  collect_tagged managed_domain expected_projects domain = do
    projects ← call (client.list_projects_with_tag domain.id managed_by_tag)
    for_each projects λ project. (do
      orphaned ← gets (λ s. s.collected.orphaned_projects)
      if contains project.name orphaned
          then pure tt
          else if contains project.name expected_projects
          then pure tt
          else collect_tagged_orphan managed_domain project)

  module _ (federation : FederationClient W) where
    unfoldable pub cleanup_mapping :
        FederationConfig → Option (RegistryHandle W) → String → Exec (Run W) Unit
    cleanup_mapping config registry project_name =
        catch
          (do
            call (remove_project_mapping lower client federation config project_name)
            if_found registry (λ h.
                call
                  (Registry.unregister h.api h.json h.namespace "federation_mappings" project_name))
            modify (note_mapping project_name))
          λ e. pure tt

    -- `_cleanup_federation_mappings`; making the manager only stores its arguments
    unfoldable pub cleanup_federation_mappings :
        FederationConfig → Option (RegistryHandle W) → List String → Exec (Run W) Unit
    cleanup_federation_mappings config registry orphaned_projects =
        for_each orphaned_projects (cleanup_mapping config registry)

    -- `collect_garbage` once the domain is found
    unfoldable pub collect_in_domain :
        String
        → List String
        → Option FederationConfig
        → Option (RegistryHandle W)
        → Domain
        → Exec (Run W) Unit
    collect_in_domain managed_domain expected_projects federation_config registry domain = do
      if_found registry (λ h. collect_registered h expected_projects)
      collect_tagged managed_domain expected_projects domain
      orphaned ← gets (λ s. s.collected.orphaned_projects)
      if_found federation_config (λ config. cleanup_federation_mappings config registry orphaned)

    unfoldable pub collect_garbage :
        String
        → List String
        → Option FederationConfig
        → Option (RegistryHandle W)
        → Exec (Run W) Unit
    collect_garbage managed_domain expected_projects federation_config registry = do
      domain ← call (client.get_domain managed_domain)
      if_found domain
          (collect_in_domain managed_domain expected_projects federation_config registry)
