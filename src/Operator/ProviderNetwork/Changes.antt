-- ===== src/Operator/ProviderNetwork/Changes.antt =====
-- What `update_subnet_properties` makes of a subnet.
use openstack_keystone.Prelude.{
  String, ◌≡◌, refl, ap, ◌∙◌, Bool, true, false, not, ◌&&◌, ◌||◌, Option, none, some, List, [], ◌∷◌,
  eq_iff, ◌==◌, or_else, is_some, Bool-cases, inl, inr,
}
use openstack_keystone.Exec.{pure, ◌>>=◌}
use openstack_keystone.Exec.Quiet.{IsOk}
use openstack_keystone.Exec.Inversion.{>>=-IsOk}
use openstack_keystone.Operator.Project.{differs}
use openstack_keystone.Operator.ProviderNetwork.{
  AllocationPool, ProviderSubnet, ProviderSubnetSpec, SubnetChanges, SubnetStatus,
  ProviderNetworkClient, same_texts, same_pools, changed, subnet_changes, has_changes,
  update_found_subnet,
}

and-eq : (a b : Bool) → (a && b) ≡ true → (a ≡ true) × (b ≡ true)
and-eq true b h = (refl, h)
and-eq false b h = cc

or-eq : (a b : Bool) → (a || b) ≡ false → (a ≡ false) × (b ≡ false)
or-eq true b h = cc
or-eq false b h = (refl, h)

same_texts_eq : (xs ys : List String) → same_texts xs ys ≡ true → xs ≡ ys
unfolding same_texts
same_texts_eq [] [] h = refl
same_texts_eq [] (y ∷ ys) h = cc
same_texts_eq (x ∷ xs) [] h = cc
same_texts_eq (x ∷ xs) (y ∷ ys) h =
    let (first, rest) = and-eq (x == y) (same_texts xs ys) h in
    rw ((eq_iff x y).0 first, same_texts_eq xs ys rest) refl

same_pools_eq : (xs ys : List AllocationPool) → same_pools xs ys ≡ true → xs ≡ ys
unfolding same_pools
same_pools_eq [] [] h = refl
same_pools_eq [] (y ∷ ys) h = cc
same_pools_eq (x ∷ xs) [] h = cc
same_pools_eq (x ∷ xs) (y ∷ ys) h =
    let (start, more) = and-eq (x.start == y.start) (x.end == y.end && same_pools xs ys) h in
    let (end, rest) = and-eq (x.end == y.end) (same_pools xs ys) more in
    let e = same_pool x y ((eq_iff x.start y.start).0 start) ((eq_iff x.end y.end).0 end) in
    rw (e, same_pools_eq xs ys rest) refl
  where
    same_pool : (x y : AllocationPool) → x.start ≡ y.start → x.end ≡ y.end → x ≡ y
    same_pool x y s e = ap (λ t. record x { start = t }) s ∙ ap (λ t. record y { end = t }) e

same_dhcp : (a b : Bool) → not (differs a b) ≡ true → a ≡ b
same_dhcp true true h = refl
same_dhcp true false h = cc
same_dhcp false true h = cc
same_dhcp false false h = refl

module _ {A : Type 0} (same : A → A → Bool) (same_eq : (a b : A) → same a b ≡ true → a ≡ b) where
  -- A change replaces the old value by the specified one, or by nothing new.
  changed_value : (old : A) (new : Option A) → or_else (changed same old new) old ≡ or_else new old
  unfolding changed
  changed_value old none = refl
  changed_value old (some new) = elim (Bool-cases (same old new)) [
    | inl equal ↦ rw equal (same_eq old new equal)
    | inr other ↦ rw other refl
  ]

  -- Where there is no change, the old value is the specified one.
  unchanged_value :
      (old : A) (new : Option A) → is_some (changed same old new) ≡ false → old ≡ or_else new old
  unchanged_value old new h = no_change (changed same old new) old h ∙ changed_value old new
    where
      no_change : (o : Option A) (old : A) → is_some o ≡ false → old ≡ or_else o old
      no_change none old h = refl
      no_change (some a) old h = cc

-- The subnet with the given fields set, and the others as they were.
abbrev pub with_changes : SubnetChanges → ProviderSubnet → ProviderSubnet
with_changes changes s = record s {
  is_dhcp_enabled = or_else changes.is_dhcp_enabled s.is_dhcp_enabled;
  dns_nameservers = or_else changes.dns_nameservers s.dns_nameservers;
  allocation_pools = or_else changes.allocation_pools s.allocation_pools;
}

-- Neutron's subnets as documented: `subnet_of w i` is the subnet of the ID. An update that succeeds
-- sets the fields that it names and keeps the others.
pub record SubnetLaws {W : Type 0} (client : ProviderNetworkClient W) : Type 0 where
  pub subnet_of : W → String → Option ProviderSubnet
  pub update_ok :
      (w : W) (i : String) (changes : SubnetChanges) (s : ProviderSubnet)
      → subnet_of w i ≡ some s
      → IsOk (client.update_subnet i changes w).0
      → subnet_of (client.update_subnet i changes w).1 i ≡ some (with_changes changes s)

-- The subnet has DHCP as specified, by default enabled, and the name servers and pools that are
-- specified, or else those that it had.
abbrev pub Meets : ProviderSubnetSpec → ProviderSubnet → ProviderSubnet → Type 0
Meets spec old s =
    (s.is_dhcp_enabled ≡ or_else spec.enable_dhcp true)
    × (s.dns_nameservers ≡ or_else spec.dns_nameservers old.dns_nameservers)
    × (s.allocation_pools ≡ or_else spec.allocation_pools old.allocation_pools)
    × (s.name ≡ old.name)

changes_meet :
    (spec : ProviderSubnetSpec) (old : ProviderSubnet)
    → Meets spec old (with_changes (subnet_changes spec old) old)
unfolding subnet_changes
changes_meet spec old = (
  changed_value (λ a b. not (differs a b)) same_dhcp old.is_dhcp_enabled
      (some (or_else spec.enable_dhcp true)),
  changed_value same_texts same_texts_eq old.dns_nameservers spec.dns_nameservers,
  changed_value same_pools same_pools_eq old.allocation_pools spec.allocation_pools,
  refl,
)

no_changes_meet :
    (spec : ProviderSubnetSpec) (old : ProviderSubnet)
    → has_changes (subnet_changes spec old) ≡ false
    → Meets spec old old
unfolding subnet_changes has_changes
no_changes_meet spec old h =
    let changes = subnet_changes spec old in
    let (dhcp, more) = or-eq (is_some changes.is_dhcp_enabled) _ h in
    let (dns, pools) = or-eq (is_some changes.dns_nameservers) _ more in
    (
      unchanged_value (λ a b. not (differs a b)) same_dhcp old.is_dhcp_enabled
          (some (or_else spec.enable_dhcp true)) dhcp,
      unchanged_value same_texts same_texts_eq old.dns_nameservers spec.dns_nameservers dns,
      unchanged_value same_pools same_pools_eq old.allocation_pools spec.allocation_pools pools,
      refl,
    )

module _ {W : Type 0} {client : ProviderNetworkClient W} (laws : SubnetLaws client) where
  open laws use {subnet_of, update_ok}

  -- Where a round of `update_subnet_properties` for an existing subnet returns, Neutron has the
  -- subnet with DHCP as specified, by default enabled, with the name servers and pools that are
  -- specified or else those that it had, and under its name, whether or not there was a change to
  -- make.
  pub update_found_subnet-Meets :
      (network_id : String) (spec : ProviderSubnetSpec) (old : ProviderSubnet) (w : W)
      → subnet_of w old.id ≡ some old
      → IsOk (update_found_subnet client network_id spec (some old) w).0
      → (s : ProviderSubnet) × (subnet_of
            (update_found_subnet client network_id spec (some old) w).1
            old.id
          ≡ some s)
        × Meets spec old s
  unfolding update_found_subnet pure ◌>>=◌
  update_found_subnet-Meets network_id spec old w there h =
      let changes = subnet_changes spec old in
      let update = client.update_subnet old.id changes in
      elim (Bool-cases (has_changes changes)) [
        | inr nothing ↦ rw nothing (old, there, no_changes_meet spec old nothing)
        | inl something ↦
            let (u, e, after) =
              >>=-IsOk update
                (λ (u : Unit).
                  pure {A = SubnetStatus} (record { name = spec.name; subnet_id = old.id }))
                w (rw something at h) in
            (
              with_changes changes old,
              rw something (rw after (update_ok w old.id changes old there (rw e tt))),
              changes_meet spec old,
            )
      ]
