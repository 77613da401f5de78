-- ===== src/Operator/Domain/Ensure.antt =====
-- What a domain is after it was ensured.
use openstack_keystone.Prelude.{String, Bool, ◌≡◌, refl, ◌∙◌, sym, Option, none, some}
use openstack_keystone.Exec.{ok, pure}
use openstack_keystone.Exec.Quiet.{IsOk}
use openstack_keystone.Exec.Inversion.{>>=-eq-ok, ok-eq}
use openstack_keystone.Operator.Client.{IdentityClient, Domain}
use openstack_keystone.Operator.Domain.{
  DomainInfo, domain_info, update_or_new, ensure_domain, get_domain_info,
}

-- The documented behaviour of Keystone's domains: `domain_of w n` is the domain of the name `n`.
-- Any call may fail.
pub record DomainLaws {W : Type 0} (client : IdentityClient W) : Type 0 where
  pub domain_of : W → String → Option Domain
  pub get_ok :
      (w : W) (n : String) (d : Option Domain)
      → (client.get_domain n w).0 ≡ ok d
      → domain_of w n ≡ d
  pub get_keeps : (w : W) (n m : String) → domain_of (client.get_domain n w).1 m ≡ domain_of w m
  pub update_ok :
      (w : W) (n text : String) (enabled : Bool) (d : Domain)
      → domain_of w n ≡ some d
      → IsOk (client.update_domain d.id text enabled w).0
      → domain_of (client.update_domain d.id text enabled w).1 n
        ≡ some (record d { description = text; is_enabled = enabled })
  pub create_ok :
      (w : W) (n text : String) (enabled : Bool) (d : Domain)
      → (client.create_domain n text enabled w).0 ≡ ok d
      → (domain_of (client.create_domain n text enabled w).1 n ≡ some d)
        × (d.description ≡ text)
        × (d.is_enabled ≡ enabled)

module _ {W : Type 0} {client : IdentityClient W} (laws : DomainLaws client) where
  open laws use {domain_of, get_ok, get_keeps, update_ok, create_ok}

  -- The domain of the name has this ID, description and state.
  abbrev IsAs : W → String → String → String → Bool → Type 0
  IsAs w name id text enabled =
      (d : Domain) × (domain_of w name ≡ some d)
      × (d.id ≡ id)
      × (d.description ≡ text)
      × (d.is_enabled ≡ enabled)

  update_or_new_lem :
      (w : W) (name text : String) (enabled : Bool) (found : Option Domain) (id : String)
      → domain_of w name ≡ found
      → (update_or_new client name text enabled found w).0 ≡ ok id
      → IsAs (update_or_new client name text enabled found w).1 name id text enabled
  unfolding update_or_new pure
  update_or_new_lem w name text enabled (some d) id e h =
      let (u, ran, after) =
        >>=-eq-ok (client.update_domain d.id text enabled) (λ _. pure d.id) w id h in
      let new = update_ok w name text enabled d e (rw ran tt) in
      (
        record d { description = text; is_enabled = enabled },
        rw after new,
        ok-eq (rw after at h),
        refl,
        refl,
      )
  update_or_new_lem w name text enabled none id e h =
      let (d, ran, after) =
        >>=-eq-ok (client.create_domain name text enabled) (λ (d : Domain). pure d.id) w id h in
      let (new, described, state) = create_ok w name text enabled d ran in
      (d, rw after new, ok-eq (rw after at h), described, state)

  ensure_domain-IsAs :
      (w : W) (name text : String) (enabled : Bool) (id : String)
      → (ensure_domain client name text enabled w).0 ≡ ok id
      → IsAs (ensure_domain client name text enabled w).1 name id text enabled
  unfolding ensure_domain
  ensure_domain-IsAs w name text enabled id h =
      let m = client.get_domain name in
      let (found, e, after) = >>=-eq-ok m (update_or_new client name text enabled) w id h in
      rw after (
        update_or_new_lem (m w).1 name text enabled found id
          (get_keeps w name name ∙ get_ok w name found e) (rw after at h))

  -- After an `ensure_domain` that succeeds, a `get_domain_info` of the name that succeeds finds a
  -- domain of the returned ID, with the description and the state that were given.
  pub ensure_domain-get_domain_info :
      (w : W) (name text : String) (enabled : Bool) (id : String) (info : Option DomainInfo)
      → (ensure_domain client name text enabled w).0 ≡ ok id
      → (get_domain_info client name (ensure_domain client name text enabled w).1).0 ≡ ok info
      → (i : DomainInfo) × (info ≡ some i)
        × (i.domain_id ≡ id)
        × (i.description ≡ text)
        × (i.enabled ≡ enabled)
  unfolding get_domain_info domain_info pure
  ensure_domain-get_domain_info w name text enabled id info h g =
      let (d, here, same_id, described, state) = ensure_domain-IsAs w name text enabled id h in
      let w' = (ensure_domain client name text enabled w).1 in
      let m = client.get_domain name in
      let rest = λ (o : Option Domain).
        pure {S = W} (elim o [ none ↦ none | some d ↦ some (domain_info d) ]) in
      let (found, e, after) = >>=-eq-ok m rest w' info g in
      let known = sym (get_ok w' name found e) ∙ here in
      (domain_info d, sym (ok-eq (rw known at (rw after at g))), same_id, described, state)
