-- ===== src/Operator/Handlers/Gauge/Delete.antt =====
-- The gauge under `delete_project_handler`.
use openstack_keystone.Prelude.{
  ℕ, suc, ◌≡◌, refl, Bool, true, false, ◌&&◌, Bool-cases, inl, inr, String, Option, none, some,
  List, present, or_else, if◌then◌else◌,
}
use openstack_keystone.Exec.{Result, ok, err, modify, ◌>>=◌}
use openstack_keystone.Exec.Inversion.{Result-cases}
use openstack_keystone.Exec.Keeps.{Keeps, Keeps-catch, Keeps-raise, Keeps-pure}
use openstack_keystone.Exec.Quiet.{Quiet, quiet_rules}
use openstack_keystone.Operator.Claims.{ProjectCr}
use openstack_keystone.Operator.FederationConfig.{FederationRef}
use openstack_keystone.Operator.Handling.{on_cloud, increment, decrement}
use openstack_keystone.Operator.Handling.Gauge.{
  InGauge, Leaves, decrement-Leaves, finally-Leaves, Leaves-if, Leaves-first, Leaves-second,
  on_cloud-InGauge, on_cloud-Quiet, emit-InGauge, fail-InGauge, gauge_rules,
}
use openstack_keystone.Operator.Handlers.{
  ProjectSpec, ProjectStatus, CrMeta, Services, ProjectRun, try_list_project_crs,
  listed_project_crs,
}
use openstack_keystone.Operator.Handlers.Delete.{
  delete_mapping, delete_body, delete_unreferenced, delete_if_unreferenced, delete_project_handler,
}

abbrev pub failed : {A : Type 0} → Result A → Bool
failed (ok a) = false
failed (err e) = true

module _ {Q W : Type 0} (services : Services Q W) where
  try_list_project_crs-Quiet : Quiet (try_list_project_crs services)
  unfolding try_list_project_crs
  try_list_project_crs-Quiet = search quiet_rules

  delete_mapping-InGauge :
      (a b : ℕ) (meta : CrMeta) (name : String) (ref : Option FederationRef)
      → Keeps (InGauge a b) (delete_mapping services meta name ref)
  unfolding delete_mapping
  delete_mapping-InGauge a b meta name ref = search gauge_rules depth 9

  delete_body-InGauge :
      (a b : ℕ) (meta : CrMeta) (spec : ProjectSpec Q) (status : ProjectStatus) (name id : String)
      → Keeps (InGauge a b) (delete_body services meta spec status name id)
  unfolding delete_body
  delete_body-InGauge a b meta spec status name id =
      search (gauge_rules, delete_mapping-InGauge a b) depth 9

  delete_unreferenced-Leaves :
      (meta : CrMeta) (spec : ProjectSpec Q) (status : ProjectStatus) (name id : String)
      → Leaves (delete_unreferenced services meta spec status name id)
  unfolding delete_unreferenced
  delete_unreferenced-Leaves meta spec status name id = finally-Leaves _ λ a b.
      Keeps-catch _ _ (delete_body-InGauge a b meta spec status name id)
        (λ e. fail-InGauge a b _ _ _ e (λ m. Keeps-pure tt))

  delete_if_unreferenced-Leaves :
      (meta : CrMeta) (spec : ProjectSpec Q) (status : ProjectStatus) (name domain id : String)
      (o : Option (List ProjectCr))
      → Leaves (delete_if_unreferenced services meta spec status name domain id o)
  unfolding delete_if_unreferenced
  delete_if_unreferenced-Leaves meta spec status name domain id none =
      Leaves-first (modify decrement) _ decrement-Leaves (λ u a b. Keeps-raise _)
  delete_if_unreferenced-Leaves meta spec status name domain id (some crs) =
      Leaves-if _ _ _ (delete_unreferenced-Leaves meta spec status name id)
        (Leaves-second _ _ (search quiet_rules) (λ a b. emit-InGauge a b _) (λ u. decrement-Leaves))

  counted_out :
      (meta : CrMeta) (spec : ProjectSpec Q) (status : ProjectStatus) (name domain id : String)
      → Leaves (
          on_cloud (try_list_project_crs services)
          >>= delete_if_unreferenced services meta spec status name domain id)
  counted_out meta spec status name domain id =
      Leaves-second _ _ (on_cloud-Quiet _ try_list_project_crs-Quiet)
        (λ a b. on_cloud-InGauge a b _) (delete_if_unreferenced-Leaves meta spec status _ _ _)

  -- A deletion counts itself into the gauge once, and out of it once, whether it returns, raises or
  -- is refused; only where the status has a project ID and the Kubernetes configuration does not
  -- load, it does not count itself out.
  pub delete_project_handler-Counted :
      (meta : CrMeta) (spec : ProjectSpec Q) (status : ProjectStatus) (s : ProjectRun W)
      → let end = (delete_project_handler services meta spec status s).1 in
        (end.entered ≡ suc s.entered)
        × (end.left ≡ (
            if present status.project_id && failed (services.get_core_api s.cloud).0
            then s.left
            else suc s.left))
  unfolding delete_project_handler listed_project_crs increment decrement modify on_cloud ◌>>=◌
  delete_project_handler-Counted meta spec status s =
      elim (Bool-cases (present status.project_id)) [
        | inr without ↦ rw without (refl, refl)
        | inl has_id ↦ elim (Result-cases (services.get_core_api s.cloud).0) [
          | inr (e, raised) ↦ rw has_id (rw raised (refl, refl))
          | inl (u, configured) ↦ rw has_id (
              rw configured (
                (counted_out meta spec status (or_else spec.name "") (or_else spec.domain "")
                    (or_else status.project_id "")).at
                  (record s {
                    entered = suc s.entered;
                    cloud = (services.get_core_api s.cloud).1;
                  })))
        ]
      ]
