-- ===== src/Operator/Handlers/Outcome.antt =====
-- The phase that the handlers of a project leave in the patch.
use openstack_keystone.Prelude.{String, refl, Option, List}
use openstack_keystone.Exec.{Exec, modify, ◌>>=◌}
use openstack_keystone.Operator.Handling.{set_patch, set_patch_at}
use openstack_keystone.Operator.Handling.Outcome.{
  Settled, Readies, Notes, Readies-bind, Readies-if, guarded-Settled, Settled-Readies,
}
use openstack_keystone.Operator.Handlers.{
  ProjectPatch, ProjectSpec, ProjectStatus, CrMeta, Services, ProjectRun, condition, put_condition,
  set_phase, synced, ready, note_error,
}
use openstack_keystone.Operator.Handlers.Create.{
  provision_rest, provision, create_body, create_project,
}
use openstack_keystone.Operator.Handlers.Update.{
  update_existing, update_or_create, update_body, update_project,
}
use openstack_keystone.Operator.Handlers.Update.Diff.{Change}

abbrev Ready : {W A : Type 0} → Exec (ProjectRun W) A → Type 0
Ready m = Readies (λ (p : ProjectPatch). p.phase) m

module _ {Q W : Type 0} (services : Services Q W) where
  ready-Readies : Ready (ready services)
  unfolding ready synced set_phase set_patch set_patch_at modify ◌>>=◌
  ready-Readies = record { at = λ s u e. refl }

  note_error-Notes : Notes (λ (p : ProjectPatch). p.phase) (note_error services)
  unfolding note_error condition put_condition set_phase set_patch set_patch_at modify ◌>>=◌
  note_error-Notes = record { returns = λ m s. refl; notes = λ m s. refl }

  provision-Readies :
      (meta : CrMeta) (spec : ProjectSpec Q) (name domain : String)
      → Ready (provision services meta spec name domain)
  unfolding provision provision_rest
  provision-Readies meta spec name domain = search (Readies-bind, ready-Readies) depth 12

  -- A creation that returns leaves the phase Ready, one that asks for a retry leaves it Error, and no
  -- exception comes out but those two of kopf.
  pub create_project-Settled :
      (meta : CrMeta) (spec : ProjectSpec Q) (s : ProjectRun W)
      → let end = create_project services meta spec s in Settled end.0 end.1.patch.phase
  unfolding create_project create_body modify ◌>>=◌
  create_project-Settled meta spec s =
      guarded-Settled (λ (p : ProjectPatch). p.phase) (note_error services)
        (create_body services meta spec) "CreateFailed" "Creation failed: " _ note_error-Notes
        (search (Readies-bind, provision-Readies) depth 9)

  create_project-Readies :
      (meta : CrMeta) (spec : ProjectSpec Q) → Ready (create_project services meta spec)
  create_project-Readies meta spec =
      Settled-Readies (λ (p : ProjectPatch). p.phase) (create_project services meta spec)
        (create_project-Settled meta spec)

  update_existing-Readies :
      (meta : CrMeta) (spec : ProjectSpec Q) (status : ProjectStatus) (diff : List Change)
      (name domain id : String) (g : Option String)
      → Ready (update_existing services meta spec status diff name domain id g)
  unfolding update_existing
  update_existing-Readies meta spec status diff name domain id g =
      search (Readies-bind, ready-Readies) depth 12

  update_body-Readies :
      (meta : CrMeta) (spec : ProjectSpec Q) (status : ProjectStatus) (diff : List Change)
      → Ready (update_body services meta spec status diff)
  unfolding update_body update_or_create
  update_body-Readies meta spec status diff =
      search (Readies-bind, Readies-if, update_existing-Readies, create_project-Readies) depth 12

  -- The same of an update, also where it becomes a creation.
  pub update_project-Settled :
      (meta : CrMeta) (spec : ProjectSpec Q) (status : ProjectStatus) (diff : List Change)
      (s : ProjectRun W)
      → let end = update_project services meta spec status diff s in Settled end.0 end.1.patch.phase
  unfolding update_project modify ◌>>=◌
  update_project-Settled meta spec status diff s =
      guarded-Settled (λ (p : ProjectPatch). p.phase) (note_error services)
        (update_body services meta spec status diff) "UpdateFailed" "Update failed: " _
        note_error-Notes (update_body-Readies meta spec status diff)
