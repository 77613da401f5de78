-- ===== src/Operator/Handlers/Gauge.antt =====
-- How the project handlers change the gauge of runs in progress.
pub mod Delete
pub mod Update
use openstack_keystone.Prelude.{
  ℕ, suc, ◌+◌, String, ◌≡◌, refl, ap, Bool, true, false, not, ◌&&◌, Option, none, some, List, [],
  ◌∷◌, present, or_else, if◌then◌else◌, arith,
}
use openstack_keystone.Exec.{Error, Exec, pure, raise, modify, ◌>>=◌, ◌>>◌, catch, if_found}
use openstack_keystone.Exec.Keeps.{
  Keeps, Keeps-pure, Keeps-raise, Keeps-if, Keeps-bind, Keeps-catch, Keeps-if_found,
}
use openstack_keystone.Operator.Claims.{ProjectCr}
use openstack_keystone.Operator.RoleBinding.{RoleBinding}
use openstack_keystone.Operator.Federation.{FederationConfig}
use openstack_keystone.Operator.FederationConfig.{FederationRef}
use openstack_keystone.Operator.Network.{NetworkSpec, NetworkStatus}
use openstack_keystone.Operator.Client.{Group}
use openstack_keystone.Operator.SecurityGroup.{SecurityGroupSpec, SecurityGroupStatus}
use openstack_keystone.Operator.Quota.{Quotas}
use openstack_keystone.Operator.Handling.{
  Handling, finally, increment, decrement, fail_unless_permanent, set_patch,
}
use openstack_keystone.Operator.Handling.Gauge.{
  InGauge, set_patch-InGauge, on_cloud-InGauge, fail-InGauge, fail_unless_permanent-InGauge,
  gauge_rules,
}
use openstack_keystone.Operator.Handlers.{
  ProjectSpec, ProjectStatus, CrMeta, Services, ProjectRun, condition, synced, ready, note_error,
  required, corrected, group_by_name, resolve_group_id,
}
use openstack_keystone.Operator.Handlers.Create.{
  start_patch, refuse_if_owned, check_owner, provision_project, provision_key, provision_quotas,
  provision_networks, provision_security_groups, bind_roles, map_users, provision_mapping,
  provision_rest, provision, create_body, create_project,
}

module _ {Q W : Type 0} (services : Services Q W) (a b : ℕ) where
  pub condition-InGauge : (t s r m : String) → Keeps (InGauge a b) (condition services t s r m)
  unfolding condition
  condition-InGauge t s r m = search gauge_rules

  pub ready-InGauge : Keeps (InGauge a b) (ready services)
  unfolding ready synced
  ready-InGauge = search gauge_rules

  pub note_error-InGauge : (m : String) → Keeps (InGauge a b) (note_error services m)
  unfolding note_error
  note_error-InGauge m = search (gauge_rules, condition-InGauge)

  pub required-InGauge : (spec : ProjectSpec Q) → Keeps (InGauge a b) (required services spec)
  unfolding required
  required-InGauge spec = search gauge_rules

  refuse_if_owned-InGauge :
      (meta : CrMeta) (name domain : String) (o : Option (List ProjectCr))
      → Keeps (InGauge a b) (refuse_if_owned services meta name domain o)
  unfolding refuse_if_owned
  refuse_if_owned-InGauge meta name domain none = search gauge_rules
  refuse_if_owned-InGauge meta name domain (some crs) = search gauge_rules

  check_owner-InGauge :
      (meta : CrMeta) (name domain : String)
      → Keeps (InGauge a b) (check_owner services meta name domain)
  unfolding check_owner
  check_owner-InGauge meta name domain = search (gauge_rules, refuse_if_owned-InGauge)

  provision_project-InGauge :
      (spec : ProjectSpec Q) (name domain : String)
      → Keeps (InGauge a b) (provision_project services spec name domain)
  unfolding provision_project
  provision_project-InGauge spec name domain = search (gauge_rules, condition-InGauge) depth 9

  provision_key-InGauge : (id : String) → Keeps (InGauge a b) (provision_key services id)
  unfolding provision_key
  provision_key-InGauge id = search (gauge_rules, condition-InGauge) depth 9

  provision_quotas-InGauge :
      (id : String) (wanted : Quotas Q) → Keeps (InGauge a b) (provision_quotas services id wanted)
  unfolding provision_quotas
  provision_quotas-InGauge id wanted = search (gauge_rules, condition-InGauge) depth 9

  provision_networks-InGauge :
      (id : String) (specs : List NetworkSpec)
      → Keeps (InGauge a b) (provision_networks services id specs)
  unfolding provision_networks
  provision_networks-InGauge id specs = search (gauge_rules, condition-InGauge) depth 9

  provision_security_groups-InGauge :
      (id : String) (specs : List SecurityGroupSpec)
      → Keeps (InGauge a b) (provision_security_groups services id specs)
  unfolding provision_security_groups
  provision_security_groups-InGauge id specs = search (gauge_rules, condition-InGauge) depth 9

  pub bind_roles-InGauge :
      (id : String) (g : Option String) (bindings : List RoleBinding) (domain : String)
      (managed : Bool)
      → Keeps (InGauge a b) (bind_roles services id g bindings domain managed)
  unfolding bind_roles
  bind_roles-InGauge id g bindings domain managed = search gauge_rules

  map_users-InGauge :
      (cr name : String) (bindings : List RoleBinding) (config : FederationConfig)
      → Keeps (InGauge a b) (map_users services cr name bindings config)
  unfolding map_users
  map_users-InGauge cr name bindings config = search (gauge_rules, condition-InGauge) depth 9

  provision_mapping-InGauge :
      (meta : CrMeta) (name : String) (ref : Option FederationRef) (bindings : List RoleBinding)
      (managed : Bool)
      → Keeps (InGauge a b) (provision_mapping services meta name ref bindings managed)
  unfolding provision_mapping
  provision_mapping-InGauge meta name ref bindings managed =
      search (gauge_rules, map_users-InGauge) depth 9

  provision_rest-InGauge :
      (meta : CrMeta) (spec : ProjectSpec Q) (name domain : String) (ids : String × String)
      → Keeps (InGauge a b) (provision_rest services meta spec name domain ids)
  unfolding provision_rest
  provision_rest-InGauge meta spec name domain ids =
      search
        (
          Keeps-bind, provision_key-InGauge, provision_quotas-InGauge, provision_networks-InGauge,
          provision_security_groups-InGauge, bind_roles-InGauge, provision_mapping-InGauge,
          ready-InGauge,
        )
        depth 12

  create_body-InGauge :
      (meta : CrMeta) (spec : ProjectSpec Q) → Keeps (InGauge a b) (create_body services meta spec)
  unfolding create_body provision
  create_body-InGauge meta spec =
      search
        (
          Keeps-bind, required-InGauge, check_owner-InGauge, provision_project-InGauge,
          provision_rest-InGauge,
        )
        depth 9

  -- A body with the handlers' `except` clauses.
  pub guarded-InGauge :
      (body : Exec (ProjectRun W) Unit) (reason message : String)
      → Keeps (InGauge a b) body
      → Keeps
          (InGauge a b)
          (catch body (fail_unless_permanent (note_error services) reason message))
  guarded-InGauge body reason message k = Keeps-catch body _ k (λ e.
      fail_unless_permanent-InGauge a b (note_error services) reason message e note_error-InGauge)

-- The run was counted once at its beginning and once at its end.
abbrev pub Counted : {W : Type 0} → Exec (ProjectRun W) Unit → ProjectRun W → Type 0
Counted m s = ((m s).1.entered ≡ suc s.entered) × ((m s).1.left ≡ suc s.left)

module _ {Q W : Type 0} (services : Services Q W) where
  -- Whether a creation returns or raises, it counts itself in and out of the gauge once.
  pub create_project-Counted :
      (meta : CrMeta) (spec : ProjectSpec Q) (s : ProjectRun W)
      → Counted (create_project services meta spec) s
  unfolding create_project finally increment decrement set_patch modify ◌>>=◌
  create_project-Counted meta spec s =
      let s' : ProjectRun W = record s {
        entered = suc s.entered;
        patch = start_patch meta s.patch;
      } in
      let g =
        (guarded-InGauge services (suc s.entered) s.left (create_body services meta spec)
            "CreateFailed" "Creation failed: "
            (create_body-InGauge services (suc s.entered) s.left meta spec)).at
          s' (record { same_entered = refl; same_left = refl }) in
      (g.same_entered, ap suc g.same_left)
