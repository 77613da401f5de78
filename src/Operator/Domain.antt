-- ===== src/Operator/Domain.antt =====
-- Keystone domains (openstack-operator/src/resources/domain.py).
pub mod Ensure
use openstack_keystone.Prelude.{String, Bool, Option, none, some}
use openstack_keystone.Exec.{Exec, pure, ◌>>=◌, ◌>>◌}
use openstack_keystone.Operator.Client.{IdentityClient, Domain}

-- What `get_domain_info` returns.
pub record DomainInfo : Type 0 where
  pub domain_id : String
  pub name : String
  pub description : String
  pub enabled : Bool

unfoldable pub domain_info : Domain → DomainInfo
domain_info domain = record {
  domain_id = domain.id;
  name = domain.name;
  description = domain.description;
  enabled = domain.is_enabled;
}

module _ {W : Type 0} (client : IdentityClient W) where
  open client use {get_domain, create_domain, update_domain}

  unfoldable pub update_or_new : String → String → Bool → Option Domain → Exec W String
  update_or_new name description enabled (some existing) = do
    update_domain existing.id description enabled
    pure existing.id
  update_or_new name description enabled none = do
    domain ← create_domain name description enabled
    pure domain.id

  unfoldable pub ensure_domain : String → String → Bool → Exec W String
  ensure_domain name description enabled = do
    existing ← get_domain name
    update_or_new name description enabled existing

  unfoldable pub delete_domain : String → Exec W Unit
  delete_domain domain_id = client.delete_domain domain_id

  unfoldable pub get_domain_info : String → Exec W (Option DomainInfo)
  unfolding domain_info
  get_domain_info name = do
    domain ← get_domain name
    pure (elim domain [ none ↦ none | some d ↦ some (domain_info d) ])
