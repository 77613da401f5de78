-- ===== src/Operator/Federation/Rules.antt =====
-- The rules of one group and of the others, as lists.
use mathlib.Core.List.{append-nil}
use openstack_keystone.Prelude.{String, ◌≡◌, refl, true, not, List, [], ◌∷◌, ◌++◌, filter, eq_refl}
use openstack_keystone.Prelude.Filter.{filter-append, filter-filter, filter-filter-not}
use openstack_keystone.Operator.Naming.{make_group_name}
use openstack_keystone.Operator.Federation.{
  Rule, rule_matches_group, other_rules, generate_mapping_rule,
}

-- The rules that are for the group.
abbrev pub rules_for : String → List Rule → List Rule
rules_for group_name rules = filter (λ rule. rule_matches_group rule group_name) rules

pub generate_mapping_rule-matches :
    (lower : String → String) (project : String) (users : List String) (domain : String)
    → rule_matches_group
        (generate_mapping_rule lower project users domain)
        (make_group_name lower project)
      ≡ true
unfolding generate_mapping_rule rule_matches_group
generate_mapping_rule-matches lower project users domain =
    rw (eq_refl (make_group_name lower project)) refl

module _ (g : String) (rules : List Rule) (rule : Rule)
    (own : rule_matches_group rule g ≡ true) where
  pub rules_for-replaced : rules_for g (other_rules g rules ++ rule ∷ []) ≡ rule ∷ []
  rules_for-replaced =
      rw (filter-append (λ r. rule_matches_group r g) (other_rules g rules) (rule ∷ []))
        (rw (filter-filter-not (λ r. rule_matches_group r g) rules) (rw own refl))

  pub other_rules-replaced : other_rules g (other_rules g rules ++ rule ∷ []) ≡ other_rules g rules
  other_rules-replaced =
      rw (filter-append (λ r. not (rule_matches_group r g)) (other_rules g rules) (rule ∷ [])) (
        rw (filter-filter (λ r. not (rule_matches_group r g)) rules)
          (rw own (append-nil (other_rules g rules))))
