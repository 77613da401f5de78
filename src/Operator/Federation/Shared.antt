-- ===== src/Operator/Federation/Shared.antt =====
-- Two projects of one domain whose names differ in a separator share a group, and so a mapping rule.
use text.Mathlib.TextLemmas.{nil-append, cons-append}
use openstack_keystone.Prelude.{String, ◌≡◌, refl, false, List, [], ◌∷◌, concat}
use openstack_keystone.Exec.Quiet.{IsOk}
use openstack_keystone.Operator.Naming.{replace_separators, sanitize_name, make_group_name}
use openstack_keystone.Operator.Client.{IdentityClient}
use openstack_keystone.Operator.Federation.{
  FederationClient, FederationConfig, is_empty, generate_mapping_rule, add_project_mapping,
}
use openstack_keystone.Operator.Federation.Rules.{rules_for}
use openstack_keystone.Operator.Federation.Mapping.{MappingLaws, current, add_project_mapping_lem}

-- A dot and a hyphen in the same place become the same.
replace_separators-separator :
    (before after : String)
    → replace_separators (concat before (concat "-" after))
      ≡ replace_separators (concat before (concat "." after))
unfolding replace_separators
replace_separators-separator String.[] after =
    rw
      (
        nil-append (concat "-" after),
        nil-append (concat "." after),
        cons-append "-" "" after,
        cons-append "." "" after,
      )
      refl
replace_separators-separator (String.◌∷◌ c before) after =
    rw (cons-append c before (concat "-" after), cons-append c before (concat "." after))
      (rw (replace_separators-separator before after) refl)

make_group_name-separator :
    (lower : String → String) (before after : String)
    → make_group_name lower (concat before (concat "-" after))
      ≡ make_group_name lower (concat before (concat "." after))
unfolding make_group_name sanitize_name
make_group_name-separator lower before after = rw (replace_separators-separator before after) refl

module _ {W : Type 0} {identity : IdentityClient W} {client : FederationClient W}
    (laws : MappingLaws identity client) (config : FederationConfig) (lower : String → String) where
  -- A successful `add_project_mapping` with users, for a project that has a dot in its name, takes
  -- the group of the project that has a hyphen in its place, where both are mapped by the same
  -- settings, and so in the same domain: the new rule becomes the only rule of that group, and
  -- whatever rule there was for the other project is gone.
  pub add_project_mapping_takes_over :
      (before after : String) (users : List String) (w : W)
      → is_empty users ≡ false
      → IsOk
          (add_project_mapping lower identity client config
            (concat before (concat "." after))
            users
            w).0
      → rules_for (make_group_name lower (concat before (concat "-" after))) (
          current laws config
            (add_project_mapping lower identity client config
              (concat before (concat "." after))
              users
              w).1)
        ≡ generate_mapping_rule lower (concat before (concat "." after)) users config.sso_domain
          ∷ []
  add_project_mapping_takes_over before after users w some_users h =
      rw (make_group_name-separator lower before after)
        (add_project_mapping_lem laws config lower (concat before (concat "." after)) users w
          some_users h).0
