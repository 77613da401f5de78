-- ===== src/Operator/ClusterGarbage/Orphaned.antt =====
-- What the cluster-wide garbage collection deletes.
use openstack_keystone.Prelude.{String, ◌≡◌, List, [], ◌∷◌, or_else, All, All-of_Elem, Elem}
use openstack_keystone.Exec.{Exec, ok}
use openstack_keystone.Exec.Keeps.{
  Keeps, Keeps-pure, Keeps-bind, Keeps-bind_post, Keeps-bind-lift, Keeps-catch, Keeps-for_each-All,
}
use openstack_keystone.Dict.{Dict, lookup}
use openstack_keystone.Operator.Registry
use openstack_keystone.Operator.Registry.{Info, RegistryHandle}
use openstack_keystone.Operator.Garbage.{index_text}
use openstack_keystone.Operator.ClusterGarbage.{
  ClusterClient, subnets_of, delete_orphaned_domain, delete_orphaned_flavor, delete_orphaned_image,
  delete_orphaned_network, collect_orphan, collect_orphans, collect_type, collect_cluster_garbage,
}

module _ {W : Type 0} (client : ClusterClient W) (h : RegistryHandle W)
    (expected_crs : Dict (List String)) where
  -- The registry, in some state, returns this entry among the orphans of the type.
  abbrev pub IsOrphan : String → Info → Type 0
  IsOrphan t info =
      (w : W) × (infos : List Info) × ((Registry.get_orphans h.api h.json h.namespace t
          (or_else (lookup t expected_crs) []) w).0
        ≡ ok infos)
      × Elem info infos

  -- `P` is kept by the registry's own operations, and by deleting a resource of a type under the ID
  -- of an orphan of that type; for a network, its subnets also.
  pub record SparesKnown (P : W → Type 0) : Type 0 where
    pub get_orphans_keeps :
        (t : String) (names : List String)
        → Keeps P (Registry.get_orphans h.api h.json h.namespace t names)
    pub unregister_keeps :
        (t n : String) → Keeps P (Registry.unregister h.api h.json h.namespace t n)
    pub delete_network_keeps :
        (info : Info) (id : String)
        → IsOrphan "provider_networks" info
        → index_text "id" info ≡ ok id
        → Keeps P (client.delete_network id)
    pub delete_subnet_keeps :
        (info : Info) (id : String)
        → IsOrphan "provider_networks" info
        → Elem id (subnets_of info)
        → Keeps P (client.delete_subnet id)
    pub delete_image_keeps :
        (info : Info) (id : String)
        → IsOrphan "images" info
        → index_text "id" info ≡ ok id
        → Keeps P (client.delete_image id)
    pub delete_flavor_keeps :
        (info : Info) (id : String)
        → IsOrphan "flavors" info
        → index_text "id" info ≡ ok id
        → Keeps P (client.delete_flavor id)
    pub delete_domain_keeps :
        (info : Info) (id : String)
        → IsOrphan "domains" info
        → index_text "id" info ≡ ok id
        → Keeps P (client.delete_domain id)

  module _ {P : W → Type 0} (spares : SparesKnown P) where
    open spares use {
      get_orphans_keeps, unregister_keeps, delete_network_keeps, delete_subnet_keeps,
      delete_image_keeps, delete_flavor_keeps, delete_domain_keeps,
    }

    collect_orphan-Keeps :
        (t : String) (delete_fn : Info → Exec W Unit) (info : Info)
        → Keeps P (delete_fn info)
        → Keeps P (collect_orphan client h t delete_fn info)
    unfolding collect_orphan
    collect_orphan-Keeps t delete_fn info k =
        Keeps-catch _ _
          (Keeps-bind _ _ k (λ _.
            Keeps-bind-lift (index_text "name" info) _
              (λ n e. Keeps-bind _ _ (unregister_keeps t n) (λ _. Keeps-pure _))))
          (λ e. Keeps-pure [])

    collect_orphans-Keeps :
        (t : String) (delete_fn : Info → Exec W Unit) (infos : List Info)
        → All (λ info. Keeps P (delete_fn info)) infos
        → Keeps P (collect_orphans client h t delete_fn infos)
    unfolding collect_orphans
    collect_orphans-Keeps t delete_fn [] k = Keeps-pure []
    collect_orphans-Keeps t delete_fn (info ∷ infos) k =
        Keeps-bind _ _ (collect_orphan-Keeps t delete_fn info k.0) (λ deleted.
          Keeps-bind _ _ (collect_orphans-Keeps t delete_fn infos k.1) (λ more. Keeps-pure _))

    collect_type-Keeps :
        (t : String) (delete_fn : Info → Exec W Unit)
        → ((info : Info) → IsOrphan t info → Keeps P (delete_fn info))
        → Keeps P (collect_type client h expected_crs t delete_fn)
    unfolding collect_type
    collect_type-Keeps t delete_fn k =
        Keeps-bind_post (λ infos. All (λ info. Keeps P (delete_fn info)) infos)
          (Registry.get_orphans h.api h.json h.namespace t (or_else (lookup t expected_crs) [])) _
          (get_orphans_keeps t (or_else (lookup t expected_crs) []))
          (λ w infos e.
            All-of_Elem (λ info. Keeps P (delete_fn info)) infos
              (λ info m. k info (w, infos, e, m)))
          (λ infos all.
            Keeps-bind _ _ (collect_orphans-Keeps t delete_fn infos all) (λ l. Keeps-pure _))

    network_step :
        (info : Info)
        → IsOrphan "provider_networks" info
        → Keeps P (delete_orphaned_network client info)
    unfolding delete_orphaned_network
    network_step info o =
        Keeps-bind _ _
          (Keeps-for_each-All (λ id. Keeps P (client.delete_subnet id)) (subnets_of info) _
            (λ id k. Keeps-catch (client.delete_subnet id) _ k (λ e. Keeps-pure tt))
            (All-of_Elem _ (subnets_of info) (λ id m. delete_subnet_keeps info id o m)))
          (λ _. Keeps-bind-lift (index_text "id" info) _ (λ id e. delete_network_keeps info id o e))

    -- `_collect_cluster_garbage` keeps whatever is kept by the registry's own operations and by the
    -- deletion of the resources of orphaned entries, each by the call of its own type.
    pub collect_cluster_garbage-Keeps : Keeps P (collect_cluster_garbage client h expected_crs)
    unfolding collect_cluster_garbage delete_orphaned_image delete_orphaned_flavor
        delete_orphaned_domain
    collect_cluster_garbage-Keeps =
        Keeps-bind _ _ (collect_type-Keeps "provider_networks" _ network_step) (λ networks.
          Keeps-bind _ _
            (collect_type-Keeps "images" _ (λ info o.
              Keeps-bind-lift (index_text "id" info) _ (λ id. delete_image_keeps info id o)))
            (λ images.
              Keeps-bind _ _
                (collect_type-Keeps "flavors" _ (λ info o.
                  Keeps-bind-lift (index_text "id" info) _ (λ id. delete_flavor_keeps info id o)))
                (λ flavors.
                  Keeps-bind _ _
                    (collect_type-Keeps "domains" _ (λ info o.
                      Keeps-bind-lift (index_text "id" info) _
                        (λ id. delete_domain_keeps info id o)))
                    (λ domains. Keeps-pure _))))
