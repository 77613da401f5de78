-- ===== src/Operator/Examples/Cloud/Mappings.antt =====
-- Projects whose mapping rules are added, removed and synchronised.
use openstack_keystone.Prelude.{String, ◌≡◌, ◌≢◌, ◌≢◌, refl, sym, ap, some, List, [], ◌∷◌}
use openstack_keystone.Exec.{◌>>=◌}
use openstack_keystone.Exec.Quiet.{IsOk}
use openstack_keystone.Exec.Inversion.{ok-eq}
use openstack_keystone.Dict.{Dict}
use openstack_keystone.Operator.Naming.{make_group_name, sanitize_name}
use openstack_keystone.Operator.Federation.{
  Rule, other_rules, rules_of_mapping, generate_mapping_rule, rule_matches_group, item_names_group,
  ensure_identity_provider, ensure_federation_protocol, get_current_mapping_rules, update_mapping,
  add_project_mapping, write_remaining, remove_project_mapping, project_rules,
  sync_federation_mapping,
}
use openstack_keystone.Operator.Federation.Rules.{rules_for}
use openstack_keystone.Operator.Federation.Shared.{add_project_mapping_takes_over}
use openstack_keystone.Operator.Federation.Mapping.{
  MappingLaws, with_users, add_project_mapping_lem, remove_project_mapping_lem,
  sync_federation_mapping_lem,
}
use openstack_keystone.Operator.Examples.Cloud.{
  World, new_world, identity, federation, config, same,
}

abbrev mapping_laws : MappingLaws identity federation
mapping_laws = record {
  rules_of = λ w m. rules_of_mapping w.mapping;
  get_ok = λ w m found h. ap rules_of_mapping (ok-eq (sym h));
  get_keeps = λ w m n. refl;
  update_ok = λ w m rules h. refl;
  create_ok = λ w m rules h. refl;
  get_domain_keeps = λ w m d. refl;
  get_provider_keeps = λ w m i. refl;
  create_provider_keeps = λ w m i r d. refl;
  get_protocol_keeps = λ w m i p. refl;
  create_protocol_keeps = λ w m i p n. refl;
}

abbrev users : List String
users = "ada" ∷ []

added : IsOk (add_project_mapping same identity federation config "web" users new_world).0
unfolding add_project_mapping ensure_identity_provider get_current_mapping_rules update_mapping
    ensure_federation_protocol ◌>>=◌
added = tt

abbrev current : World → List Rule
current w = rules_of_mapping w.mapping

add_project_mapping_lem_example :
    let g = make_group_name same "web" in
    let after =
      current (add_project_mapping same identity federation config "web" users new_world).1 in
    (rules_for g after ≡ generate_mapping_rule same "web" users config.sso_domain ∷ [])
    × (other_rules g after ≡ other_rules g (current new_world))
add_project_mapping_lem_example =
    add_project_mapping_lem mapping_laws config same "web" users new_world refl added

abbrev with_hyphen : World
with_hyphen = record new_world {
  mapping = some (some (generate_mapping_rule same "a-b" ("bob" ∷ []) "sso" ∷ []));
}

taken_over : IsOk (add_project_mapping same identity federation config "a.b" users with_hyphen).0
unfolding add_project_mapping ensure_identity_provider get_current_mapping_rules update_mapping
    ensure_federation_protocol ◌>>=◌
taken_over = tt

add_project_mapping_takes_over_example :
    rules_for
      (make_group_name same "a-b")
      (current (add_project_mapping same identity federation config "a.b" users with_hyphen).1)
    ≡ generate_mapping_rule same "a.b" users config.sso_domain ∷ []
add_project_mapping_takes_over_example =
    add_project_mapping_takes_over mapping_laws config same "a" "b" users with_hyphen refl
      taken_over

abbrev with_rules : World
with_rules = record new_world {
  mapping = some (
      some (
        generate_mapping_rule same "web" users "sso"
        ∷ generate_mapping_rule same "db" users "sso"
        ∷ []));
}

removed : IsOk (remove_project_mapping same identity federation config "web" with_rules).0
unfolding remove_project_mapping get_current_mapping_rules write_remaining update_mapping
    rule_matches_group item_names_group generate_mapping_rule make_group_name sanitize_name ◌>>=◌
removed = tt

remove_project_mapping_lem_example :
    let g = make_group_name same "web" in
    let after =
      current (remove_project_mapping same identity federation config "web" with_rules).1 in
    (other_rules g after ≡ other_rules g (current with_rules))
    × (other_rules g (current with_rules) ≢ [] → rules_for g after ≡ [])
    × (current with_rules ≢ [] → after ≢ [])
remove_project_mapping_lem_example =
    remove_project_mapping_lem mapping_laws config same "web" with_rules removed

abbrev project_users : Dict (List String)
project_users = ("web", users) ∷ ("empty", []) ∷ []

synced : IsOk (sync_federation_mapping same identity federation config project_users new_world).0
unfolding sync_federation_mapping ensure_identity_provider project_rules update_mapping
    ensure_federation_protocol ◌>>=◌
synced = tt

sync_federation_mapping_lem_example :
    let after =
      current (sync_federation_mapping same identity federation config project_users new_world).1 in
    (with_users project_users ≡ [] → after ≡ current new_world)
    × (with_users project_users ≢ []
        → after ≡ generate_mapping_rule same "web" users config.sso_domain ∷ [])
sync_federation_mapping_lem_example =
    sync_federation_mapping_lem mapping_laws config same project_users new_world synced
