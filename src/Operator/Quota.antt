-- ===== src/Operator/Quota.antt =====
-- Quotas of a project (openstack-operator/src/resources/quota.py). A quota is a number or -1 for
-- unlimited; it is only passed on, so its type is a parameter.
use openstack_keystone.Prelude.{String, Option, [], ◌∷◌, or_else}
use openstack_keystone.Exec.{Exec, pure, ◌>>◌}
use openstack_keystone.Dict.{Dict}

pub record QuotaClient (Q W : Type 0) : Type 0 where
  pub set_compute_quotas : String → Dict Q → Exec W Unit
  pub set_volume_quotas : String → Dict Q → Exec W Unit
  pub set_network_quotas : String → Dict Q → Exec W Unit

-- The sections that are there.
pub record Quotas (Q : Type 0) : Type 0 where
  pub compute : Option (Dict Q)
  pub storage : Option (Dict Q)
  pub network : Option (Dict Q)

module _ {Q W : Type 0} where
  -- `section = quotas.get(…, {})` and `if section:`
  unfoldable pub set_section : (String → Dict Q → Exec W Unit) → String → Dict Q → Exec W Unit
  set_section set_quotas project_id [] = pure tt
  set_section set_quotas project_id (quota ∷ more) = set_quotas project_id (quota ∷ more)

  -- Of empty quotas every section is empty.
  unfoldable pub apply_quotas : QuotaClient Q W → String → Quotas Q → Exec W Unit
  apply_quotas client project_id quotas = do
    set_section client.set_compute_quotas project_id (or_else quotas.compute [])
    set_section client.set_volume_quotas project_id (or_else quotas.storage [])
    set_section client.set_network_quotas project_id (or_else quotas.network [])
