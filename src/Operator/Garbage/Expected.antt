-- ===== src/Operator/Garbage/Expected.antt =====
-- The daemon's garbage collection, which has no registry, spares what the CRs expect.
use openstack_keystone.Prelude.{
  String, ◌≡◌, ap, ◌∙◌, false, Option, none, some, List, [], ◌∷◌, contains, All, All-append,
  All-of_Elem, Elem, if◌then◌else◌,
}
use openstack_keystone.Exec.{ok, Exec, pure, gets, modify, ◌>>=◌, if_found}
use openstack_keystone.Exec.Keeps.{
  Keeps, Keeps-bind, Keeps-bind_post, Keeps-for_each-All, Keeps-if_found, keeps_rules,
}
use openstack_keystone.Operator.Naming.{make_group_name}
use openstack_keystone.Operator.Client.{IdentityClient, Domain, Project, Group}
use openstack_keystone.Operator.Federation.{
  FederationClient, FederationConfig, remove_project_mapping,
}
use openstack_keystone.Operator.Garbage.{
  Run, call, note_project, note_group, note_mapping, note_orphan, managed_by_tag,
  delete_tagged_group, delete_tagged_project, collect_tagged_orphan, collect_tagged,
  cleanup_mapping, cleanup_federation_mappings, collect_in_domain, collect_garbage,
}

module _ (lower : String → String) {W : Type 0} (client : IdentityClient W)
    (federation : FederationClient W) (managed_domain : String) (expected : List String) where
  -- `P` is kept by the lookups, by deleting an unexpected project that the tag query returned, by
  -- deleting the group of an unexpected project's name, and by removing such a project's mapping.
  pub record Spares (P : W → Type 0) : Type 0 where
    pub get_domain_keeps : (d : String) → Keeps P (client.get_domain d)
    pub list_keeps : (d tag : String) → Keeps P (client.list_projects_with_tag d tag)
    pub get_group_keeps : (n d : String) → Keeps P (client.get_group n d)
    pub delete_project_keeps :
        (d : String) (w : W) (ps : List Project) (p : Project)
        → (client.list_projects_with_tag d managed_by_tag w).0 ≡ ok ps
        → Elem p ps
        → contains p.name expected ≡ false
        → Keeps P (client.delete_project p.id)
    pub delete_group_keeps :
        (w : W) (n : String) (g : Group)
        → contains n expected ≡ false
        → (client.get_group (make_group_name lower n) managed_domain w).0 ≡ ok (some g)
        → Keeps P (client.delete_group g.id)
    pub remove_mapping_keeps :
        (config : FederationConfig) (n : String)
        → contains n expected ≡ false
        → Keeps P (remove_project_mapping lower client federation config n)

  abbrev pub Unexpected : String → Type 0
  Unexpected n = contains n expected ≡ false

  -- `P` holds of the cloud, and the results name unexpected projects only.
  pub record Safe (P : W → Type 0) (s : Run W) : Type 0 where
    pub cloud_safe : P s.cloud
    pub orphans_unexpected : All Unexpected s.collected.orphaned_projects
    pub deleted_unexpected : All Unexpected s.collected.deleted_projects
    pub mappings_unexpected : All Unexpected s.collected.deleted_mappings

  module _ {P : W → Type 0} where
    call-Safe : {A : Type 0} (m : Exec W A) → Keeps P m → Keeps (Safe P) (call m)
    unfolding call
    call-Safe m k = record {
      at = λ s h. record {
        cloud_safe = k.at s.cloud h.cloud_safe;
        orphans_unexpected = h.orphans_unexpected;
        deleted_unexpected = h.deleted_unexpected;
        mappings_unexpected = h.mappings_unexpected;
      };
    }

    note_group-Safe : (n : String) → Keeps (Safe P) (modify (note_group n))
    unfolding note_group modify
    note_group-Safe n = record {
      at = λ s h. record {
        cloud_safe = h.cloud_safe;
        orphans_unexpected = h.orphans_unexpected;
        deleted_unexpected = h.deleted_unexpected;
        mappings_unexpected = h.mappings_unexpected;
      };
    }

    note_orphan-Safe : (n : String) → Unexpected n → Keeps (Safe P) (modify (note_orphan n))
    unfolding note_orphan modify
    note_orphan-Safe n u = record {
      at = λ s h. record {
        cloud_safe = h.cloud_safe;
        orphans_unexpected =
            All-append Unexpected s.collected.orphaned_projects (n ∷ []) h.orphans_unexpected
              (u, tt);
        deleted_unexpected = h.deleted_unexpected;
        mappings_unexpected = h.mappings_unexpected;
      };
    }

    note_project-Safe : (n : String) → Unexpected n → Keeps (Safe P) (modify (note_project n))
    unfolding note_project modify
    note_project-Safe n u = record {
      at = λ s h. record {
        cloud_safe = h.cloud_safe;
        orphans_unexpected = h.orphans_unexpected;
        deleted_unexpected =
            All-append Unexpected s.collected.deleted_projects (n ∷ []) h.deleted_unexpected
              (u, tt);
        mappings_unexpected = h.mappings_unexpected;
      };
    }

    note_mapping-Safe : (n : String) → Unexpected n → Keeps (Safe P) (modify (note_mapping n))
    unfolding note_mapping modify
    note_mapping-Safe n u = record {
      at = λ s h. record {
        cloud_safe = h.cloud_safe;
        orphans_unexpected = h.orphans_unexpected;
        deleted_unexpected = h.deleted_unexpected;
        mappings_unexpected =
            All-append Unexpected s.collected.deleted_mappings (n ∷ []) h.mappings_unexpected
              (u, tt);
      };
    }

    module _ (spares : Spares P) where
      open spares use {
        get_domain_keeps, list_keeps, get_group_keeps, delete_project_keeps, delete_group_keeps,
        remove_mapping_keeps,
      }

      delete_tagged_project-Safe :
          (p : Project)
          → Unexpected p.name
          → Keeps P (client.delete_project p.id)
          → Keeps (Safe P) (delete_tagged_project lower client p)
      unfolding delete_tagged_project
      delete_tagged_project-Safe p u k = search (keeps_rules, call-Safe, note_project-Safe) depth 7

      delete_tagged_group-Safe :
          (n : String) (g : Group)
          → Keeps P (client.delete_group g.id)
          → Keeps (Safe P) (delete_tagged_group lower client n g)
      unfolding delete_tagged_group
      delete_tagged_group-Safe n g k = search (keeps_rules, call-Safe, note_group-Safe) depth 7

      -- What a call of the client returned, it returned in some state of the cloud.
      call-ok :
          {A : Type 0} (m : Exec W A) (s : Run W) (a : A)
          → (call m s).0 ≡ ok a
          → (m s.cloud).0 ≡ ok a
      unfolding call
      call-ok m s a h = h

      collect_tagged_orphan-Safe :
          (p : Project)
          → Unexpected p.name
          → Keeps P (client.delete_project p.id)
          → Keeps (Safe P) (collect_tagged_orphan lower client managed_domain p)
      unfolding collect_tagged_orphan
      collect_tagged_orphan-Safe p u k =
          let g = make_group_name lower p.name in
          Keeps-bind (modify (note_orphan p.name)) _ (note_orphan-Safe p.name u) λ _.
            Keeps-bind_post
              (λ (found : Option Group).
                (x : Group) → found ≡ some x → Keeps P (client.delete_group x.id))
              (call (client.get_group g managed_domain)) _
              (call-Safe (client.get_group g managed_domain) (get_group_keeps g managed_domain))
              (λ s found e x is.
                delete_group_keeps s.cloud p.name x u
                  (call-ok (client.get_group g managed_domain) s found e ∙ ap ok is))
              λ found own.
                Keeps-bind (if_found found (delete_tagged_group lower client g)) _
                  (Keeps-if_found found (delete_tagged_group lower client g)
                    (λ x is. delete_tagged_group-Safe g x (own x is)))
                  λ _. delete_tagged_project-Safe p u k

      abbrev Deletable : Project → Type 0
      Deletable p = Unexpected p.name → Keeps P (client.delete_project p.id)

      tagged_round-Safe :
          (p : Project)
          → Deletable p
          → Keeps (Safe P) (
              gets (λ (s : Run W). s.collected.orphaned_projects) >>= λ orphaned.
              if contains p.name orphaned
              then pure tt
              else if contains p.name expected
              then pure tt
              else collect_tagged_orphan lower client managed_domain p)
      tagged_round-Safe p own = search (keeps_rules, collect_tagged_orphan-Safe, own) depth 8

      collect_tagged-Safe :
          (domain : Domain)
          → Keeps (Safe P) (collect_tagged lower client managed_domain expected domain)
      unfolding collect_tagged
      collect_tagged-Safe domain =
          let list = client.list_projects_with_tag domain.id managed_by_tag in
          Keeps-bind_post (λ (ps : List Project). All Deletable ps) (call list) _
            (call-Safe list (list_keeps domain.id managed_by_tag))
            (λ s ps e. All-of_Elem Deletable ps (λ p place u.
              delete_project_keeps domain.id s.cloud ps p (call-ok list s ps e) place u))
            λ ps own. Keeps-for_each-All Deletable ps _ tagged_round-Safe own

      cleanup_mapping-Safe :
          (config : FederationConfig) (n : String)
          → Unexpected n
          → Keeps (Safe P) (cleanup_mapping lower client federation config none n)
      unfolding cleanup_mapping if_found
      cleanup_mapping-Safe config n u =
          search (keeps_rules, call-Safe, remove_mapping_keeps, note_mapping-Safe) depth 9

      -- The clean-up of mappings runs over the orphans that the state has.
      cleanup-Safe :
          (federation_config : Option FederationConfig)
          → Keeps (Safe P) (
              gets (λ (s : Run W). s.collected.orphaned_projects) >>= λ orphaned.
              if_found federation_config (λ config.
                cleanup_federation_mappings lower client federation config none orphaned))
      unfolding cleanup_federation_mappings gets ◌>>=◌
      cleanup-Safe federation_config = record {
        at = λ s h.
            (Keeps-if_found federation_config _ λ config is.
                Keeps-for_each-All Unexpected s.collected.orphaned_projects _
                  (λ n u. cleanup_mapping-Safe config n u) h.orphans_unexpected).at
              s h;
      }

      collect_in_domain-Safe :
          (federation_config : Option FederationConfig) (domain : Domain)
          → Keeps (Safe P) (
              collect_in_domain lower client federation managed_domain expected federation_config
                none domain)
      unfolding collect_in_domain
      collect_in_domain-Safe federation_config domain =
          Keeps-bind (if_found none _) _ (Keeps-if_found none _ (λ x is. cc)) λ _.
            Keeps-bind (collect_tagged lower client managed_domain expected domain) _
              (collect_tagged-Safe domain) λ _. cleanup-Safe federation_config

      -- The garbage collection that the daemon runs, which passes no registry: whether it returns or
      -- raises, it deletes only projects that the tag query returned and whose names no CR expects,
      -- the groups of such names, and the mappings of such names; every property of the cloud that
      -- those calls and the lookups keep is kept. The names that it reports as deleted projects and
      -- mappings are all unexpected.
      pub collect_garbage-Keeps :
          (federation_config : Option FederationConfig)
          → Keeps (Safe P) (
              collect_garbage lower client federation managed_domain expected federation_config
                none)
      unfolding collect_garbage
      collect_garbage-Keeps federation_config =
          Keeps-bind (call (client.get_domain managed_domain)) _
            (call-Safe (client.get_domain managed_domain) (get_domain_keeps managed_domain))
            λ found.
              Keeps-if_found found _ (λ domain is. collect_in_domain-Safe federation_config domain)
