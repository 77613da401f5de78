-- ===== src/Operator/Examples/Cloud/Domains.antt =====
-- A domain that is created and read back.
use openstack_keystone.Prelude.{◌≡◌, refl, ap, true, some}
use openstack_keystone.Exec.{ok, ◌>>=◌}
use openstack_keystone.Exec.Inversion.{ok-eq}
use openstack_keystone.Operator.Domain.{
  DomainInfo, domain_info, ensure_domain, update_or_new, get_domain_info,
}
use openstack_keystone.Operator.Domain.Ensure.{DomainLaws, ensure_domain-get_domain_info}
use openstack_keystone.Operator.Examples.Cloud.{new_world, identity, renewed}

domain_laws : DomainLaws identity
domain_laws = record {
  domain_of = λ w n. w.domain;
  get_ok = λ w n d h. ok-eq h;
  get_keeps = λ w n m. refl;
  update_ok = λ w n t e d h k. ap (renewed t e) h;
  create_ok = λ w n t e d h. rw (← ok-eq h) (refl, refl, refl);
}

abbrev info : DomainInfo
info = record { domain_id = "sso"; name = "sso"; description = "SSO"; enabled = true }

ensured : (ensure_domain identity "sso" "SSO" true new_world).0 ≡ ok "sso"
unfolding ensure_domain update_or_new ◌>>=◌
ensured = refl

found :
    (get_domain_info identity "sso" (ensure_domain identity "sso" "SSO" true new_world).1).0
    ≡ ok (some info)
unfolding ensure_domain update_or_new get_domain_info domain_info ◌>>=◌
found = refl

ensure_domain-get_domain_info_example :
    (i : DomainInfo) × (some info ≡ some i)
    × (i.domain_id ≡ "sso")
    × (i.description ≡ "SSO")
    × (i.enabled ≡ true)
ensure_domain-get_domain_info_example =
    ensure_domain-get_domain_info domain_laws new_world "sso" "SSO" true "sso" (some info) ensured
      found
