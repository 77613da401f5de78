-- ===== src/Operator/DomainHandlers.antt =====
-- The kopf handlers of OpenstackDomain (openstack-operator/src/handlers/domain.py).
pub mod Outcome
use openstack_keystone.Prelude.{
  ℕ, String, Bool, true, false, Option, none, some, List, [], ◌∷◌, present, or_else, if◌then◌else◌,
}
use openstack_keystone.Exec.{
  Error, permanent, exception, Result, ok, err, Exec, pure, raise, lift, modify, ◌>>=◌, ◌>>◌, catch,
}
use openstack_keystone.Operator.Claims.{is_text}
use openstack_keystone.Operator.Conditions.{Condition, set_condition}
use openstack_keystone.Operator.Client.{IdentityClient}
use openstack_keystone.Operator.Registry
use openstack_keystone.Operator.Registry.{RegistryHandle}
use openstack_keystone.Operator.Domain.{DomainInfo, ensure_domain, delete_domain, get_domain_info}
use openstack_keystone.Operator.Handling.{
  Handling, on_cloud, set_patch, set_patch_at, increment, decrement, finally, fail,
  fail_unless_permanent,
}

pub record DomainSpec : Type 0 where
  pub name : Option String
  pub description : Option String
  pub enabled : Option Bool

pub record DomainStatus : Type 0 where
  pub phase : Option String
  pub domain_id : Option String
  pub conditions : Option (List Condition)

-- `patch.status`: a key that is not set is none, and `some none` sets the ID to null.
pub record DomainPatch : Type 0 where
  pub phase : Option String
  pub observed_generation : Option ℕ
  pub conditions : Option (List Condition)
  pub domain_id : Option (Option String)
  pub last_sync_time : Option String

pub record DomainServices (W : Type 0) : Type 0 where
  pub identity : IdentityClient W
  pub registry : RegistryHandle W
  pub now : W → String

abbrev pub DomainRun : Type 0 → Type 0
DomainRun W = Handling W DomainPatch

unfoldable pub start_domain : Option ℕ → DomainPatch → DomainPatch
start_domain generation p = record p {
  phase = some "Provisioning";
  conditions = some [];
  observed_generation = some (or_else generation 1);
}

-- `if key in status and key not in patch.status: patch.status[key] = status[key]`
unfoldable pub kept_id : Option (Option String) → Option String → Option (Option String)
kept_id (some id) in_status = some id
kept_id none none = none
kept_id none (some id) = some (some id)

unfoldable pub kept_conditions :
    Option (List Condition) → Option (List Condition) → Option (List Condition)
kept_conditions (some conditions) in_status = some conditions
kept_conditions none in_status = in_status

unfoldable pub resume_domain : Option ℕ → DomainStatus → DomainPatch → DomainPatch
unfolding kept_id kept_conditions
resume_domain generation status p = record p {
  phase = some "Provisioning";
  observed_generation = some (or_else generation 1);
  domain_id = kept_id p.domain_id status.domain_id;
  conditions = kept_conditions p.conditions status.conditions;
}

unfoldable pub put_domain_condition :
    String → String → String → String → String → DomainPatch → DomainPatch
unfolding set_condition
put_domain_condition condition_type condition_status reason message now p = record p {
  conditions =
      some (
        set_condition now condition_type condition_status reason message (or_else p.conditions []));
}

-- `spec["name"]`
unfoldable pub named : DomainSpec → Result String
named spec = elim spec.name [ none ↦ err (exception "KeyError") | some name ↦ ok name ]

module _ {W : Type 0} (services : DomainServices W) where
  open services use {identity, registry, now}

  -- `_set_patch_condition`, of the one type that the handlers set
  unfoldable pub domain_condition : String → String → String → Exec (DomainRun W) Unit
  domain_condition condition_status reason message =
      modify (set_patch_at now (put_domain_condition "DomainReady" condition_status reason message))

  unfoldable pub domain_synced : Exec (DomainRun W) Unit
  domain_synced = modify (set_patch_at now (λ t p. record p { last_sync_time = some t }))

  -- the end of a run that succeeded
  unfoldable pub domain_ready : String → Exec (DomainRun W) Unit
  domain_ready reason = do
    domain_condition "True" reason ""
    modify (set_patch (λ p. record p { phase = some "Ready" }))
    domain_synced

  -- what `except Exception` notes in the patch
  unfoldable pub note_domain_error : String → Exec (DomainRun W) Unit
  note_domain_error message =
      modify (set_patch (λ p. record p { phase = some "Error" }))
      >> domain_condition "False" "Error" message

  unfoldable pub required_name : DomainSpec → Exec (DomainRun W) String
  required_name spec =
      if present spec.name
      then pure (or_else spec.name "")
      else raise (permanent "spec.name is required")

  -- the body of the `try`
  unfoldable pub create_domain_body : String → DomainSpec → Exec (DomainRun W) Unit
  create_domain_body cr_name spec = do
    domain_name ← required_name spec
    domain_condition "False" "Creating" ""
    domain_id ← on_cloud (
        ensure_domain identity domain_name (or_else spec.description "")
          (or_else spec.enabled true))
    on_cloud (
        Registry.register registry.api registry.json registry.namespace "domains" domain_name
          domain_id cr_name [])
    modify (set_patch (λ p. record p { domain_id = some (some domain_id) }))
    domain_ready "Created"

  unfoldable pub create_domain_handler : String → Option ℕ → DomainSpec → Exec (DomainRun W) Unit
  create_domain_handler cr_name generation spec = do
    modify increment
    modify (set_patch (start_domain generation))
    finally
        (catch (create_domain_body cr_name spec)
          (fail_unless_permanent note_domain_error "CreateFailed" "Creation failed: "))
        decrement

  -- without a domain ID the update is a creation, which counts as a run of its own
  unfoldable pub update_or_create_domain :
      String → Option ℕ → DomainSpec → Option String → Exec (DomainRun W) Unit
  update_or_create_domain cr_name generation spec domain_id =
      if present domain_id
      then (do
        on_cloud (
            identity.update_domain (or_else domain_id "") (or_else spec.description "")
              (or_else spec.enabled true))
        domain_ready "Updated")
      else (modify decrement >> create_domain_handler cr_name generation spec)

  unfoldable pub update_domain_body :
      String → Option ℕ → DomainSpec → DomainStatus → Exec (DomainRun W) Unit
  update_domain_body cr_name generation spec status = do
    required_name spec
    update_or_create_domain cr_name generation spec status.domain_id

  unfoldable pub update_domain_handler :
      String → Option ℕ → DomainSpec → DomainStatus → Exec (DomainRun W) Unit
  update_domain_handler cr_name generation spec status = do
    modify increment
    modify (set_patch (resume_domain generation status))
    finally
        (catch (update_domain_body cr_name generation spec status)
          (fail_unless_permanent note_domain_error "UpdateFailed" "Update failed: "))
        decrement

  unfoldable pub delete_domain_body : String → String → Exec (DomainRun W) Unit
  delete_domain_body domain_name domain_id = do
    on_cloud (delete_domain identity domain_id)
    on_cloud
        (Registry.unregister registry.api registry.json registry.namespace "domains" domain_name)

  unfoldable pub delete_domain_handler : DomainSpec → DomainStatus → Exec (DomainRun W) Unit
  delete_domain_handler spec status = do
    modify increment
    if present status.domain_id
        then finally
            (catch (delete_domain_body (or_else spec.name "") (or_else status.domain_id ""))
              (fail (λ message. pure tt) "DeleteFailed" "Deletion failed: "))
            decrement
        else modify decrement

  -- what is done with the domain that was found
  unfoldable pub compare_domain : Option String → Option DomainInfo → Exec (DomainRun W) Unit
  compare_domain known none =
      modify (set_patch (λ p. record p { phase = some "Pending"; domain_id = some none }))
  compare_domain known (some info) =
      if is_text known info.domain_id
      then domain_synced
      else modify (
          set_patch
            (λ p. record p { phase = some "Pending"; domain_id = some (some info.domain_id) }))

  unfoldable pub reconcile_domain : DomainSpec → DomainStatus → Exec (DomainRun W) Unit
  unfolding named
  reconcile_domain spec status =
      if is_text status.phase "Ready"
      then (do
        domain_name ← lift (named spec)
        catch (on_cloud (get_domain_info identity domain_name) >>= compare_domain status.domain_id)
            (λ e. pure tt))
      else pure tt
