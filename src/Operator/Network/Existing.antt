-- ===== src/Operator/Network/Existing.antt =====
-- Ensuring networks that exist.
use openstack_keystone.Prelude.{
  String, ◌≡◌, refl, Option, none, some, List, [], ◌∷◌, concat, Elem, inl, inr,
}
use openstack_keystone.Exec.{Error, Result, ok, err, Exec, continue, pure, ◌>>=◌, map_each}
use openstack_keystone.Exec.Inversion.{ok-eq}
use openstack_keystone.Exec.Keeps.{Keeps, keeps_rules}
use openstack_keystone.Operator.Network.{
  Network, Subnet, Router, NetworkClient, RouterSpec, NetworkSpec, NetworkStatus, network_or_new,
  subnet_or_new, external_network_id, router_or_new, ensure_router, ensure_network, ensure_networks,
}

-- Where `P` holds, the action keeps it, and returns nothing but `v`.
record Gives {W A : Type 0} (P : W → Type 0) (v : A) (m : Exec W A) : Type 0 where
  at : (w : W) → P w → P (m w).1 × ((a : A) → (m w).0 ≡ ok a → a ≡ v)

module _ {W : Type 0} {P : W → Type 0} where
  Gives-pure : {A : Type 0} (v : A) → Gives P v (pure v)
  unfolding pure
  Gives-pure v = record { at = λ w h. (h, λ a e. ok-eq (sym_ok e)) }
    where
      sym_ok : {A : Type 0} {a b : A} → ok a ≡ ok b → ok b ≡ ok a
      sym_ok e = cc

  continue-Gives :
      {A B : Type 0} (r : Result A) (u : A) (v : B) (f : A → Exec W B) (w : W)
      → P w
      → ((a : A) → r ≡ ok a → a ≡ u)
      → Gives P v (f u)
      → P (continue r f w).1 × ((b : B) → (continue r f w).0 ≡ ok b → b ≡ v)
  continue-Gives (ok a) u v f w h is k = rw (is a refl) (k.at w h)
  continue-Gives (err e) u v f w h is k = (h, λ b e. absurd (err-ne-ok e))
    where
      err-ne-ok : {B : Type 0} {e : Error} {b : B} → err e ≡ ok b → ⊥
      err-ne-ok h = cc

  -- The rest is needed only for what the first part gives.
  Gives-bind :
      {A B : Type 0} (u : A) (v : B) (m : Exec W A) (f : A → Exec W B)
      → Gives P u m
      → Gives P v (f u)
      → Gives P v (m >>= f)
  unfolding ◌>>=◌
  Gives-bind u v m f first next = record {
    at = λ w h. let (h', is) = first.at w h in continue-Gives (m w).0 u v f (m w).1 h' is next;
  }

  continue-any :
      {A B : Type 0} (r : Result A) (v : B) (f : A → Exec W B) (w : W)
      → P w
      → ((a : A) → Gives P v (f a))
      → P (continue r f w).1 × ((b : B) → (continue r f w).0 ≡ ok b → b ≡ v)
  continue-any (ok a) v f w h k = (k a).at w h
  continue-any (err e) v f w h k = (h, λ b e. cc)

  -- Whatever the first part returns.
  Gives-any :
      {A B : Type 0} (v : B) (m : Exec W A) (f : A → Exec W B)
      → Keeps P m
      → ((a : A) → Gives P v (f a))
      → Gives P v (m >>= f)
  unfolding ◌>>=◌
  Gives-any v m f first next = record {
    at = λ w h. continue-any (m w).0 v f (m w).1 (first.at w h) next;
  }

-- The network of the specification, its subnet and its router, which the lookups of their names
-- find while `P` holds; and what keeps `P`.
pub record Found {W : Type 0} (client : NetworkClient W) (P : W → Type 0) (project : String)
    (spec : NetworkSpec) : Type 0 where
  pub network : Network
  pub subnet : Subnet
  pub router : Router
  pub network_found :
      (w : W) (o : Option Network)
      → P w
      → (client.get_network spec.name project w).0 ≡ ok o
      → o ≡ some network
  pub subnet_found :
      (w : W) (o : Option Subnet)
      → P w
      → (client.get_subnet (concat spec.name "-subnet") network.id w).0 ≡ ok o
      → o ≡ some subnet
  pub router_found :
      (w : W) (o : Option Router)
      → P w
      → (client.get_router (concat spec.name "-router") project w).0 ≡ ok o
      → o ≡ some router

module _ {W : Type 0} {client : NetworkClient W} {P : W → Type 0} {project : String} where
  -- The status that names what was found.
  abbrev pub found_status : (spec : NetworkSpec) → Found client P project spec → NetworkStatus
  found_status spec found = record {
    name = spec.name;
    network_id = some found.network.id;
    subnet_id = some found.subnet.id;
    router_id = elim spec.router [ none ↦ none | some r ↦ some found.router.id ];
  }

  abbrev pub found_statuses :
      (specs : List NetworkSpec)
      → ((spec : NetworkSpec) → Elem spec specs → Found client P project spec)
      → List NetworkStatus
  found_statuses [] found = []
  found_statuses (spec ∷ specs) found =
      found_status spec (found spec (inl refl)) ∷ found_statuses specs (λ s m. found s (inr m))

-- The lookups and connecting a router keep `P`.
pub record Reads {W : Type 0} (client : NetworkClient W) (P : W → Type 0) : Type 0 where
  pub network_keeps : (n p : String) → Keeps P (client.get_network n p)
  pub subnet_keeps : (n i : String) → Keeps P (client.get_subnet n i)
  pub router_keeps : (n p : String) → Keeps P (client.get_router n p)
  pub external_keeps : (n : String) → Keeps P (client.get_external_network n)
  pub interface_keeps : (r s : String) → Keeps P (client.add_router_interface r s)

module _ {W : Type 0} {client : NetworkClient W} {P : W → Type 0} (reads : Reads client P)
    (project : String) where
  open reads use {network_keeps, subnet_keeps, router_keeps, external_keeps, interface_keeps}

  external_network_id-Keeps : (spec : RouterSpec) → Keeps P (external_network_id client spec)
  unfolding external_network_id
  external_network_id-Keeps spec = search (keeps_rules, external_keeps) depth 8

  ensure_router-Gives :
      (spec : NetworkSpec) (found : Found client P project spec) (o : Option RouterSpec)
      → Gives P
          (elim o [ none ↦ none | some r ↦ some found.router.id ])
          (ensure_router client spec.name project found.subnet.id o)
  unfolding ensure_router router_or_new
  ensure_router-Gives spec found none = Gives-pure none
  ensure_router-Gives spec found (some r) =
      Gives-bind (some found.router) _ (client.get_router (concat spec.name "-router") project) _
        (record {
          at = λ w h. (
            (router_keeps (concat spec.name "-router") project).at w h,
            λ o. found.router_found w o h,
          );
        })
        (Gives-any _ (external_network_id client r) _ (external_network_id-Keeps r) (λ external.
          Gives-bind found.router _ (pure found.router) _ (Gives-pure found.router) (
            Gives-any _ _ _ (interface_keeps found.router.id found.subnet.id) (λ _. Gives-pure _))))

  ensure_network-Gives :
      (spec : NetworkSpec) (found : Found client P project spec)
      → Gives P (found_status spec found) (ensure_network client project spec)
  unfolding ensure_network network_or_new subnet_or_new
  ensure_network-Gives spec found =
      Gives-bind (some found.network) _ (client.get_network spec.name project) _
        (record {
          at = λ w h. ((network_keeps spec.name project).at w h, λ o. found.network_found w o h);
        })
        (Gives-bind found.network _ (pure found.network) _ (Gives-pure found.network) (
          Gives-bind (some found.subnet) _
            (client.get_subnet (concat spec.name "-subnet") found.network.id) _
            (record {
              at = λ w h. (
                (subnet_keeps (concat spec.name "-subnet") found.network.id).at w h,
                λ o. found.subnet_found w o h,
              );
            })
            (Gives-bind found.subnet _ (pure found.subnet) _ (Gives-pure found.subnet)
              (Gives-bind _ _ _ _ (ensure_router-Gives spec found spec.router) (Gives-pure _)))))

  ensure_each-Gives :
      (specs : List NetworkSpec)
      (found : (spec : NetworkSpec) → Elem spec specs → Found client P project spec)
      → Gives P (found_statuses specs found) (map_each specs (ensure_network client project))
  unfolding map_each
  ensure_each-Gives [] found = Gives-pure []
  ensure_each-Gives (spec ∷ specs) found =
      Gives-bind _ _ _ _ (ensure_network-Gives spec (found spec (inl refl)))
        (Gives-bind _ _ _ _ (ensure_each-Gives specs (λ s m. found s (inr m))) (Gives-pure _))

  -- Ensuring networks that exist changes nothing: where the lookups of each specification find a
  -- network, its subnet and its router, in every state that has a property which the lookups and
  -- connecting a router keep, `ensure_networks` keeps the property, also where a call fails, and
  -- what it returns has exactly those IDs, one status for each specification in their order, with a
  -- router only where one is specified.
  pub ensure_networks-found :
      (specs : List NetworkSpec)
      (found : (spec : NetworkSpec) → Elem spec specs → Found client P project spec) (w : W)
      → P w
      → P (ensure_networks client project specs w).1
        × ((statuses : List NetworkStatus)
            → (ensure_networks client project specs w).0 ≡ ok statuses
            → statuses ≡ found_statuses specs found)
  unfolding ensure_networks
  ensure_networks-found specs found w h = (ensure_each-Gives specs found).at w h
