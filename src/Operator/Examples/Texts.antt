-- ===== src/Operator/Examples/Texts.antt =====
-- Names, conditions and settings on concrete inputs.
use openstack_keystone.Prelude.{
  ◌≢◌, String, ◌≡◌, refl, false, Option, none, some, [], ◌∷◌, present, or_else,
}
use openstack_keystone.Exec.{Exec, ok}
use openstack_keystone.Exec.Inversion.{ok-eq}
use openstack_keystone.Dict.{Dict, lookup}
use openstack_keystone.Operator.Naming.{sanitize_name, make_group_name}
use openstack_keystone.Operator.Naming.Clean.{IsClean, sanitize_name-IsClean}
use openstack_keystone.Operator.Conditions.{Condition, set_condition}
use openstack_keystone.Operator.Conditions.Laws.{
  condition_of, IsUpdated, UniqueTypes, set_condition-IsUpdated, set_condition-UniqueTypes,
}
use openstack_keystone.Operator.FederationConfig.{ProjectSpecRef, get_federation_config_from_crs}
use openstack_keystone.Operator.FederationConfig.Keys.{get_federation_config_from_crs-none}

abbrev same : String → String
same s = s

sanitize_name-IsClean_example : IsClean (sanitize_name same "My.Project")
sanitize_name-IsClean_example = sanitize_name-IsClean same "My.Project"

-- The two names really share their group.
shared_group : make_group_name same "a.b" ≡ make_group_name same "a-b"
unfolding make_group_name sanitize_name
shared_group = refl

abbrev ready : Condition
ready = record {
  type_name = "Ready";
  status = "False";
  reason = "Creating";
  message = "";
  last_transition_time = "t0";
}

set_condition-IsSet_example :
    let cs = set_condition "t1" "Ready" "True" "Done" "" (ready ∷ []) in
    ((c : Condition) × (condition_of "Ready" cs ≡ some c)
      × IsUpdated "t1" "Ready" "True" "Done" "" (some ready) c)
    × ((u : String) → u ≢ "Ready" → condition_of u cs ≡ condition_of u (ready ∷ []))
set_condition-IsSet_example = set_condition-IsUpdated "t1" "Ready" "True" "Done" "" (ready ∷ [])

set_condition-UniqueTypes_example :
    UniqueTypes (set_condition "t1" "Ready" "True" "Done" "" (ready ∷ []))
set_condition-UniqueTypes_example =
    set_condition-UniqueTypes "t1" "Ready" "True" "Done" "" (ready ∷ []) (refl, tt)

-- A cluster whose one ConfigMap has the documented keys.
abbrev documented : Dict String
documented = ("idp-name", "sunet") ∷ ("sso-domain", "sso") ∷ []

abbrev read_documented : String → String → Exec Unit (Option (Dict String))
read_documented n m s = (ok (some documented), s)

documented_lacks :
    (n m : String) (w : Unit) (found : Option (Dict String))
    → (read_documented n m w).0 ≡ ok found
    → present (lookup "IDP_NAME" (or_else found [])) ≡ false
unfolding lookup
documented_lacks n m w found h = rw (← ok-eq h) refl

abbrev with_ref : ProjectSpecRef
with_ref = record {
  spec_name = some "p";
  federation_ref = some (record { config_map_name = some "idp"; config_map_namespace = some "ns" });
}

get_federation_config_from_crs-none_example :
    (get_federation_config_from_crs read_documented (with_ref ∷ []) tt).0 ≡ ok none
get_federation_config_from_crs-none_example =
    get_federation_config_from_crs-none read_documented documented_lacks (with_ref ∷ []) tt
