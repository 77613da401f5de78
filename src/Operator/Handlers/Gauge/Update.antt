-- ===== src/Operator/Handlers/Gauge/Update.antt =====
-- The gauge under `update_project`.
use openstack_keystone.Prelude.{
  ℕ, suc, String, ◌≡◌, refl, ap, Bool, true, false, Option, none, some, List, present,
}
use openstack_keystone.Exec.{pure, modify, ◌>>=◌, catch}
use openstack_keystone.Exec.Keeps.{Keeps, Keeps-bind, recover-Keeps}
use openstack_keystone.Operator.Client.{Group}
use openstack_keystone.Operator.RoleBinding.{RoleBinding}
use openstack_keystone.Operator.Federation.{FederationConfig}
use openstack_keystone.Operator.Network.{NetworkSpec, NetworkStatus}
use openstack_keystone.Operator.SecurityGroup.{SecurityGroupSpec, SecurityGroupStatus}
use openstack_keystone.Operator.Handling.{
  set_patch, increment, decrement, finally, fail_unless_permanent,
}
use openstack_keystone.Operator.Handling.Gauge.{
  InGauge, on_cloud-InGauge, fail_unless_permanent-InGauge, gauge_rules,
}
use openstack_keystone.Operator.Handlers.{
  ProjectSpec, ProjectStatus, CrMeta, Services, ProjectRun, corrected, group_by_name,
  resolve_group_id, required, note_error,
}
use openstack_keystone.Operator.Handlers.Create.{create_project}
use openstack_keystone.Operator.Handlers.Update.{
  preserve, update_description, update_quotas, replace_networks, replace_security_groups,
  remap_users, update_mapping_of, update_existing, update_or_create, update_body, update_project,
}
use openstack_keystone.Operator.Handlers.Update.Diff.{Change}
use openstack_keystone.Operator.Handlers.Gauge.{
  condition-InGauge, ready-InGauge, required-InGauge, note_error-InGauge, bind_roles-InGauge,
  guarded-InGauge, Counted, create_project-Counted,
}

module _ {Q W : Type 0} (services : Services Q W) (a b : ℕ) where
  corrected-InGauge : (o : Option Group) → Keeps (InGauge a b) (corrected services o)
  unfolding corrected
  corrected-InGauge none = search gauge_rules
  corrected-InGauge (some g) = search gauge_rules

  group_by_name-InGauge :
      (name domain : String) → Keeps (InGauge a b) (group_by_name services name domain)
  unfolding group_by_name
  group_by_name-InGauge name domain = search (gauge_rules, corrected-InGauge)

  pub resolve_group_id-InGauge :
      (g : Option String) (name domain : String)
      → Keeps (InGauge a b) (resolve_group_id services g name domain)
  unfolding resolve_group_id
  resolve_group_id-InGauge g name domain = search (gauge_rules, group_by_name-InGauge) depth 9

  update_description-InGauge :
      (id : String) (spec : ProjectSpec Q) (diff : List Change)
      → Keeps (InGauge a b) (update_description services id spec diff)
  unfolding update_description
  update_description-InGauge id spec diff = search gauge_rules depth 9

  update_quotas-InGauge :
      (id : String) (spec : ProjectSpec Q) (diff : List Change)
      → Keeps (InGauge a b) (update_quotas services id spec diff)
  unfolding update_quotas
  update_quotas-InGauge id spec diff = search (gauge_rules, condition-InGauge services a b) depth 9

  replace_networks-InGauge :
      (id : String) (specs : List NetworkSpec) (old : List NetworkStatus)
      → Keeps (InGauge a b) (replace_networks services id specs old)
  unfolding replace_networks
  replace_networks-InGauge id specs old =
      search (gauge_rules, condition-InGauge services a b) depth 9

  replace_security_groups-InGauge :
      (id : String) (specs : List SecurityGroupSpec) (old : List SecurityGroupStatus)
      → Keeps (InGauge a b) (replace_security_groups services id specs old)
  unfolding replace_security_groups
  replace_security_groups-InGauge id specs old =
      search (gauge_rules, condition-InGauge services a b) depth 9

  remap_users-InGauge :
      (cr name : String) (bindings : List RoleBinding) (config : FederationConfig)
      → Keeps (InGauge a b) (remap_users services cr name bindings config)
  unfolding remap_users
  remap_users-InGauge cr name bindings config =
      search (gauge_rules, condition-InGauge services a b) depth 9

  update_mapping_of-InGauge :
      (meta : CrMeta) (name : String) (spec : ProjectSpec Q) (tag_only : Bool)
      → Keeps (InGauge a b) (update_mapping_of services meta name spec tag_only)
  unfolding update_mapping_of
  update_mapping_of-InGauge meta name spec tag_only =
      search (gauge_rules, remap_users-InGauge) depth 9

  update_existing-InGauge :
      (meta : CrMeta) (spec : ProjectSpec Q) (status : ProjectStatus) (diff : List Change)
      (name domain id : String) (g : Option String)
      → Keeps (InGauge a b) (update_existing services meta spec status diff name domain id g)
  unfolding update_existing
  update_existing-InGauge meta spec status diff name domain id g =
      Keeps-bind _ _ (update_description-InGauge id spec diff) (λ _.
        Keeps-bind _ _ (on_cloud-InGauge a b _) (λ _.
          Keeps-bind _ _ (update_quotas-InGauge id spec diff) (λ _.
            Keeps-bind _ _ (search (gauge_rules, replace_networks-InGauge)) (λ _.
              Keeps-bind _ _ (search (gauge_rules, replace_security_groups-InGauge)) (λ _.
                Keeps-bind _ _ (search (gauge_rules, bind_roles-InGauge services a b)) (λ _.
                  Keeps-bind _ _ (update_mapping_of-InGauge meta name spec _)
                    (λ _. ready-InGauge services a b)))))))

  update_body-InGauge :
      (meta : CrMeta) (spec : ProjectSpec Q) (status : ProjectStatus) (diff : List Change)
      → present status.project_id ≡ true
      → Keeps (InGauge a b) (update_body services meta spec status diff)
  unfolding update_body update_or_create
  update_body-InGauge meta spec status diff has_id =
      Keeps-bind _ _ (required-InGauge services a b spec) (λ names.
        Keeps-bind _ _ (resolve_group_id-InGauge status.group_id names.0 names.1)
          (λ g. rw has_id (update_existing-InGauge meta spec status diff names.0 names.1 _ g)))

module _ {Q W : Type 0} (services : Services Q W) (meta : CrMeta) (spec : ProjectSpec Q)
    (status : ProjectStatus) (diff : List Change) (s : ProjectRun W) where
  -- the state in which the `try` begins
  abbrev begun : ProjectRun W
  begun = record s { entered = suc s.entered; patch = preserve meta status s.patch }

  -- An update of a project that has an ID counts itself in and out of the gauge once, whether it
  -- returns or raises.
  pub update_project-Counted :
      present status.project_id ≡ true → Counted (update_project services meta spec status diff) s
  unfolding update_project finally increment decrement set_patch modify ◌>>=◌
  update_project-Counted has_id =
      let g =
        (guarded-InGauge services (suc s.entered) s.left
            (update_body services meta spec status diff) "UpdateFailed" "Update failed: "
            (update_body-InGauge services (suc s.entered) s.left meta spec status diff has_id)).at
          begun (record { same_entered = refl; same_left = refl }) in
      (g.same_entered, ap suc g.same_left)

  creates :
      present status.project_id ≡ false
      → present status.group_id ≡ false
      → present spec.name ≡ true
      → present spec.domain ≡ true
      → update_body services meta spec status diff begun
        ≡ create_project services meta spec (record begun { left = suc s.left })
  unfolding update_body required resolve_group_id update_or_create decrement modify pure ◌>>=◌
  creates no_id no_group named in_domain = rw named (rw in_domain (rw no_group (rw no_id refl)))

  -- An update of a project with a name and a domain, whose status has neither a project ID nor a
  -- group ID, turns into a creation: it counts two runs in and three out, whether it returns or
  -- raises, and so leaves the gauge one too low.
  pub update_project_without_id :
      present status.project_id ≡ false
      → present status.group_id ≡ false
      → present spec.name ≡ true
      → present spec.domain ≡ true
      → let end = (update_project services meta spec status diff s).1 in
        (end.entered ≡ suc (suc s.entered)) × (end.left ≡ suc (suc (suc s.left)))
  unfolding update_project finally increment decrement set_patch modify catch ◌>>=◌
  update_project_without_id no_id no_group named in_domain =
      let body = update_body services meta spec status diff in
      let same = creates no_id no_group named in_domain in
      let (e, l) = create_project-Counted services meta spec (record begun { left = suc s.left }) in
      let g =
        recover-Keeps {P = InGauge (suc (suc s.entered)) (suc (suc s.left))} (body begun).0
          (fail_unless_permanent (note_error services) "UpdateFailed" "Update failed: ")
          (body begun).1
          (λ x.
            fail_unless_permanent-InGauge (suc (suc s.entered)) (suc (suc s.left))
              (note_error services) "UpdateFailed" "Update failed: " x
              (note_error-InGauge services (suc (suc s.entered)) (suc (suc s.left))))
          (record { same_entered = rw same e; same_left = rw same l }) in
      (g.same_entered, ap suc g.same_left)
