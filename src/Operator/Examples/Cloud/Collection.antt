-- ===== src/Operator/Examples/Cloud/Collection.antt =====
-- The garbage collection, with one expected project.
use openstack_keystone.Prelude.{
  String, ◌≡◌, refl, sym, ap, ◌∙◌, false, not, none, some, List, [], ◌∷◌, map, contains, inl, inr,
  Elem, Elem-filter, ◌==◌, arith,
}
use openstack_keystone.Exec.Keeps.{Keeps, keeps_rules}
use openstack_keystone.Exec.Inversion.{ok-eq}
use openstack_keystone.Operator.Client.{Project}
use openstack_keystone.Operator.Federation.{
  Rule, FederationConfig, remove_project_mapping, get_current_mapping_rules, write_remaining,
  update_mapping,
}
use openstack_keystone.Operator.Garbage.{collect_garbage}
use openstack_keystone.Operator.Garbage.Expected.{Spares, Safe, collect_garbage-Keeps}
use openstack_keystone.Operator.Examples.Cloud.{
  World, identity, federation, config, same, project_called, without,
}

abbrev expected : List String
expected = "keep" ∷ []

-- The expected project is there.
abbrev Kept : World → Type 0
Kept w = Elem "keep" w.projects

named_by_id : (ps : List String) (p : Project) → Elem p (map project_called ps) → p.name ≡ p.id
named_by_id [] p m = absurd m
named_by_id (n ∷ ps) p (inl e) = rw e refl
named_by_id (n ∷ ps) p (inr m) = named_by_id ps p m

stays :
    (n : String) (ps : List String)
    → contains n expected ≡ false
    → Elem "keep" ps
    → Elem "keep" (without n ps)
stays n ps h m = Elem-filter (λ x. not (x == n)) ps m (ground arith)

get_mapping-Kept : (m : String) → Keeps Kept (federation.get_mapping m)
get_mapping-Kept m = record { at = λ w h. h }

update-Kept : (m : String) (r : List Rule) → Keeps Kept (federation.update_mapping m r)
update-Kept m r = record { at = λ w h. h }

create-Kept : (m : String) (r : List Rule) → Keeps Kept (federation.create_mapping m r)
create-Kept m r = record { at = λ w h. h }

mapping-Kept :
    (c : FederationConfig) (n : String)
    → Keeps Kept (remove_project_mapping same identity federation c n)
unfolding remove_project_mapping get_current_mapping_rules write_remaining update_mapping
mapping-Kept c n = search (keeps_rules, get_mapping-Kept, update-Kept, create-Kept) depth 9

spares : Spares same identity federation "sso" expected Kept
spares = record {
  get_domain_keeps = λ d. record { at = λ w h. h };
  list_keeps = λ d t. record { at = λ w h. h };
  get_group_keeps = λ n d. record { at = λ w h. h };
  delete_project_keeps = λ d w ps p e m u. record {
    at = λ w' h.
        stays p.id w'.projects
          (ap (λ n. contains n expected) (sym (named_by_id w.projects p (rw (ok-eq e) m))) ∙ u) h;
  };
  delete_group_keeps = λ w n g u e. record { at = λ w' h. h };
  remove_mapping_keeps = λ c n u. mapping-Kept c n;
}

collect_garbage-Keeps_example :
    Keeps
      (Safe same identity federation "sso" expected Kept)
      (collect_garbage same identity federation "sso" expected (some config) none)
collect_garbage-Keeps_example =
    collect_garbage-Keeps same identity federation "sso" expected spares (some config)
