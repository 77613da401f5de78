-- ===== src/Operator/Federation.antt =====
-- Federation mappings (openstack-operator/src/resources/federation.py). A mapping is one list of
-- rules for all projects of an identity provider. A rule is a dict that Keystone returns, so the
-- keys that the code reads with `.get` are options.
pub mod Rules
pub mod Mapping
pub mod Shared
use openstack_keystone.Prelude.{
  String, Bool, true, false, not, ◌&&◌, Option, none, some, List, [], ◌∷◌, ◌++◌, filter, any,
  length, eqb, concat, or_else, is_some, ◌==◌, if◌then◌else◌,
}
use openstack_keystone.Exec.{Exec, pure, ◌>>=◌, ◌>>◌}
use openstack_keystone.Dict.{Dict}
use openstack_keystone.Operator.Naming.{make_group_name}
use openstack_keystone.Operator.Client.{IdentityClient, Domain}

pub record UserSpec : Type 0 where
  pub user_name : String
  pub domain_name : String
  pub user_type : String

pub record GroupSpec : Type 0 where
  pub group_name : Option String
  pub domain_name : Option String

pub record LocalItem : Type 0 where
  pub user : Option UserSpec
  pub group : Option GroupSpec

pub record RemoteItem : Type 0 where
  pub attribute : String
  pub any_one_of : Option (List String)

pub record Rule : Type 0 where
  pub local_items : Option (List LocalItem)
  pub remote_items : List RemoteItem

-- The federation calls of `OpenStackClient`. A mapping that exists may have no rules.
pub record FederationClient (W : Type 0) : Type 0 where
  pub get_identity_provider : String → Exec W Bool
  pub create_identity_provider : String → List String → Option String → Exec W Unit
  pub get_federation_protocol : String → String → Exec W Bool
  pub create_federation_protocol : String → String → String → Exec W Unit
  pub get_mapping : String → Exec W (Option (Option (List Rule)))
  pub create_mapping : String → List Rule → Exec W Unit
  pub update_mapping : String → List Rule → Exec W Unit

-- `FederationManager`: the fields besides the client.
pub record FederationConfig : Type 0 where
  pub idp_name : String
  pub idp_remote_id : String
  pub sso_domain : String

abbrev pub mapping_name : FederationConfig → String
mapping_name config = concat config.idp_name "_oidc_mapping"

abbrev pub is_empty {ℓ} : {A : Type ℓ} → List A → Bool
is_empty [] = true
is_empty (x ∷ xs) = false

unfoldable pub item_names_group : String → LocalItem → Bool
item_names_group group_name item = elim item.group [
  | none ↦ false
  | some g ↦ elim g.group_name [ none ↦ false | some n ↦ n == group_name ]
]

unfoldable pub rule_matches_group : Rule → String → Bool
unfolding item_names_group
rule_matches_group rule group_name = any (item_names_group group_name) (or_else rule.local_items [])

-- The rules that are not for the group.
abbrev pub other_rules : String → List Rule → List Rule
other_rules group_name rules = filter (λ rule. not (rule_matches_group rule group_name)) rules

module _ (lower : String → String) where
  unfoldable pub generate_mapping_rule : String → List String → String → Rule
  generate_mapping_rule project_name users domain = record {
    local_items = some (
        record {
          user = some (record { user_name = "{0}"; domain_name = domain; user_type = "ephemeral" });
          group = none;
        }
        ∷ record {
          user = none;
          group = some (record {
            group_name = some (make_group_name lower project_name);
            domain_name = some domain;
          });
        }
        ∷ []);
    remote_items =
        record { attribute = "HTTP_OIDC_SUB"; any_one_of = none }
        ∷ record { attribute = "HTTP_OIDC_SUB"; any_one_of = some users }
        ∷ [];
  }

-- `mapping.rules or []` of a mapping that was found, and `[]` if none was
abbrev pub rules_of_mapping : Option (Option (List Rule)) → List Rule
rules_of_mapping none = []
rules_of_mapping (some rules) = or_else rules []

-- The ID of a domain that was found.
abbrev pub domain_id : Option Domain → Option String
domain_id none = none
domain_id (some d) = some d.id

module _ {W : Type 0} (identity : IdentityClient W) (client : FederationClient W)
    (config : FederationConfig) where
  open client use {
    get_identity_provider, create_identity_provider, get_federation_protocol,
    create_federation_protocol, get_mapping, create_mapping,
  }
  open config use {idp_name, idp_remote_id, sso_domain}

  unfoldable pub ensure_identity_provider : Exec W Unit
  ensure_identity_provider = do
    found ← get_identity_provider idp_name
    if found then pure tt else do
      domain ← identity.get_domain sso_domain
      create_identity_provider idp_name (idp_remote_id ∷ []) (domain_id domain)

  unfoldable pub ensure_federation_protocol : Exec W Unit
  ensure_federation_protocol = do
    found ← get_federation_protocol idp_name "openid"
    if found then pure tt else create_federation_protocol idp_name "openid" (mapping_name config)

  unfoldable pub get_current_mapping_rules : Exec W (List Rule)
  get_current_mapping_rules = do
    mapping ← get_mapping (mapping_name config)
    pure (rules_of_mapping mapping)

  unfoldable pub update_mapping : List Rule → Exec W Unit
  update_mapping rules = do
    mapping ← get_mapping (mapping_name config)
    if is_some mapping
        then client.update_mapping (mapping_name config) rules
        else create_mapping (mapping_name config) rules

module _ (lower : String → String) {W : Type 0} (identity : IdentityClient W)
    (client : FederationClient W) (config : FederationConfig) where
  unfoldable pub add_project_mapping : String → List String → Exec W Unit
  add_project_mapping project_name users = if is_empty users then pure tt else do
    ensure_identity_provider identity client config
    current_rules ← get_current_mapping_rules identity client config
    update_mapping identity client config (
        other_rules (make_group_name lower project_name) current_rules
        ++ generate_mapping_rule lower project_name users config.sso_domain ∷ [])
    ensure_federation_protocol identity client config

  -- what `remove_project_mapping` does once it has the current rules and the new ones
  unfoldable pub write_remaining : List Rule → List Rule → Exec W Unit
  write_remaining current_rules new_rules =
      if eqb (length new_rules) (length current_rules)
      then pure tt
      else if is_empty new_rules
      then pure tt
      else update_mapping identity client config new_rules

  unfoldable pub remove_project_mapping : String → Exec W Unit
  remove_project_mapping project_name = do
    current_rules ← get_current_mapping_rules identity client config
    write_remaining current_rules (other_rules (make_group_name lower project_name) current_rules)

  unfoldable pub project_rules : Dict (List String) → List Rule
  project_rules [] = []
  project_rules ((project_name, users) ∷ rest) =
      let more = project_rules rest in
      if is_empty users
      then more
      else generate_mapping_rule lower project_name users config.sso_domain ∷ more

  unfoldable pub sync_federation_mapping : Dict (List String) → Exec W Unit
  sync_federation_mapping project_users = do
    ensure_identity_provider identity client config
    if is_empty (project_rules project_users) then pure tt else do
      update_mapping identity client config (project_rules project_users)
      ensure_federation_protocol identity client config
