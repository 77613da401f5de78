-- ===== src/Operator/DomainHandlers/Outcome.antt =====
-- The phase that the handlers of a domain leave in the patch.
use openstack_keystone.Prelude.{ℕ, String, refl, Option}
use openstack_keystone.Exec.{modify, ◌>>=◌}
use openstack_keystone.Operator.Handling.{set_patch, set_patch_at}
use openstack_keystone.Operator.Handling.Outcome.{
  Settled, Readies, Notes, Readies-bind, Readies-if, guarded-Settled, Settled-Readies,
}
use openstack_keystone.Operator.DomainHandlers.{
  DomainSpec, DomainStatus, DomainPatch, DomainServices, DomainRun, put_domain_condition,
  domain_condition, domain_synced, domain_ready, note_domain_error, create_domain_body,
  create_domain_handler, update_or_create_domain, update_domain_body, update_domain_handler,
}

abbrev phase_of : DomainPatch → Option String
phase_of p = p.phase

module _ {W : Type 0} (services : DomainServices W) where
  domain_ready-Readies : (reason : String) → Readies phase_of (domain_ready services reason)
  unfolding domain_ready domain_condition domain_synced set_patch set_patch_at modify ◌>>=◌
  domain_ready-Readies reason = record { at = λ s u e. refl }

  note_domain_error-Notes : Notes phase_of (note_domain_error services)
  unfolding note_domain_error domain_condition put_domain_condition set_patch set_patch_at modify
      ◌>>=◌
  note_domain_error-Notes = record { returns = λ m s. refl; notes = λ m s. refl }

  create_domain_body-Readies :
      (cr_name : String) (spec : DomainSpec)
      → Readies phase_of (create_domain_body services cr_name spec)
  unfolding create_domain_body
  create_domain_body-Readies cr_name spec = search (Readies-bind, domain_ready-Readies) depth 9

  create_domain_handler-Settled :
      (cr_name : String) (generation : Option ℕ) (spec : DomainSpec) (s : DomainRun W)
      → let end = create_domain_handler services cr_name generation spec s in
        Settled end.0 end.1.patch.phase
  unfolding create_domain_handler modify ◌>>=◌
  create_domain_handler-Settled cr_name generation spec s =
      guarded-Settled phase_of (note_domain_error services)
        (create_domain_body services cr_name spec) "CreateFailed" "Creation failed: " _
        note_domain_error-Notes (create_domain_body-Readies cr_name spec)

  create_domain_handler-Readies :
      (cr_name : String) (generation : Option ℕ) (spec : DomainSpec)
      → Readies phase_of (create_domain_handler services cr_name generation spec)
  create_domain_handler-Readies cr_name generation spec =
      Settled-Readies phase_of (create_domain_handler services cr_name generation spec)
        (create_domain_handler-Settled cr_name generation spec)

  update_domain_body-Readies :
      (cr_name : String) (generation : Option ℕ) (spec : DomainSpec) (status : DomainStatus)
      → Readies phase_of (update_domain_body services cr_name generation spec status)
  unfolding update_domain_body update_or_create_domain
  update_domain_body-Readies cr_name generation spec status =
      search (Readies-bind, Readies-if, domain_ready-Readies, create_domain_handler-Readies) depth 9

  -- An update of a domain, also one that becomes a creation, leaves the phase Ready where it
  -- returns and Error where it asks for a retry, and raises nothing but the two exceptions of kopf.
  pub update_domain_handler-Settled :
      (cr_name : String) (generation : Option ℕ) (spec : DomainSpec) (status : DomainStatus)
      (s : DomainRun W)
      → let end = update_domain_handler services cr_name generation spec status s in
        Settled end.0 end.1.patch.phase
  unfolding update_domain_handler modify ◌>>=◌
  update_domain_handler-Settled cr_name generation spec status s =
      guarded-Settled phase_of (note_domain_error services)
        (update_domain_body services cr_name generation spec status) "UpdateFailed"
        "Update failed: " _ note_domain_error-Notes
        (update_domain_body-Readies cr_name generation spec status)
