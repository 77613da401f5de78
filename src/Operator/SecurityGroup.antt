-- ===== src/Operator/SecurityGroup.antt =====
-- Security groups (openstack-operator/src/resources/security_group.py). `name` and `direction` are
-- keys that the CRD requires.
pub mod Passes
use openstack_keystone.Prelude.{
  ℕ, String, Bool, true, false, not, Option, none, some, List, [], ◌∷◌, ◌++◌, present, or_else,
  if◌then◌else◌,
}
use openstack_keystone.Exec.{
  exception, Result, ok, err, Exec, pure, lift, ◌>>=◌, ◌>>◌, catch, for_each,
}
use openstack_keystone.Dict.{Dict, lookup, insert}
use openstack_keystone.Operator.Network.{resource_tags}

pub record SecurityGroup : Type 0 where
  pub id : String

pub record SecurityGroupRule : Type 0 where
  pub direction : String
  pub protocol : Option String
  pub port_range_min : Option ℕ
  pub port_range_max : Option ℕ
  pub remote_ip_prefix : Option String
  pub remote_group_name : Option String
  pub ethertype : Option String

pub record SecurityGroupSpec : Type 0 where
  pub name : String
  pub description : Option String
  pub rules : Option (List SecurityGroupRule)

pub record SecurityGroupStatus : Type 0 where
  pub name : String
  pub id : String

-- The security group calls of `OpenStackClient`. The arguments of a new rule: group, direction,
-- protocol, the two ports, remote prefix, remote group, and ethertype.
pub record SecurityGroupClient (W : Type 0) : Type 0 where
  pub get_security_group : String → String → Exec W (Option SecurityGroup)
  pub create_security_group : String → String → String → List String → Exec W SecurityGroup
  pub create_security_group_rule :
      String
      → String
      → Option String
      → Option ℕ
      → Option ℕ
      → Option String
      → Option String
      → String
      → Exec W Unit
  pub delete_security_group : String → Exec W Unit

-- `d[k]`
unfoldable pub index_id : String → Dict String → Result String
unfolding lookup
index_id k d = elim (lookup k d) [ none ↦ err (exception "KeyError") | some v ↦ ok v ]

-- `remote_group_name and all_security_groups`: the names to look the remote group up in, if any
unfoldable pub known_groups : Option (Dict String) → Dict String
known_groups none = []
known_groups (some groups) = groups

unfoldable pub no_groups : Dict String → Bool
no_groups [] = true
no_groups (entry ∷ groups) = false

module _ {W : Type 0} (client : SecurityGroupClient W) where
  open client use {get_security_group, create_security_group, create_security_group_rule}

  unfoldable pub group_or_new :
      String → String → String → Option SecurityGroup → Exec W SecurityGroup
  group_or_new name project_id description (some sg) = pure sg
  group_or_new name project_id description none =
      create_security_group name project_id description resource_tags

  unfoldable pub create_rule : String → SecurityGroupRule → Option String → Exec W Unit
  create_rule sg_id rule remote_group_id =
      create_security_group_rule sg_id rule.direction rule.protocol rule.port_range_min
        rule.port_range_max rule.remote_ip_prefix remote_group_id (or_else rule.ethertype "IPv4")

  -- one round of the second pass's inner loop: an unknown remote group skips the rule
  unfoldable pub ensure_rule : Dict String → String → SecurityGroupRule → Exec W Unit
  ensure_rule ids sg_id rule =
      let remote = lookup (or_else rule.remote_group_name "") ids in
      if present rule.remote_group_name
      then (if present remote then create_rule sg_id rule remote else pure tt)
      else create_rule sg_id rule none

  -- `ensure_security_group`, which looks for remote groups only where it is given some
  unfoldable pub ensure_security_group :
      String → SecurityGroupSpec → Option (Dict String) → Exec W SecurityGroupStatus
  unfolding known_groups no_groups
  ensure_security_group project_id spec all_security_groups = do
    found ← get_security_group spec.name project_id
    sg ← group_or_new spec.name project_id (or_else spec.description "") found
    let groups = known_groups all_security_groups
    for_each (or_else spec.rules []) λ rule.
        if no_groups groups then create_rule sg.id rule none else ensure_rule groups sg.id rule
    pure (record { name = spec.name; id = sg.id })

  -- the first pass, from what it has collected so far: the results and the IDs by name
  unfoldable pub create_groups :
      String
      → List SecurityGroupSpec
      → List SecurityGroupStatus
      → Dict String
      → Exec W (List SecurityGroupStatus × Dict String)
  create_groups project_id [] results ids = pure (results, ids)
  create_groups project_id (spec ∷ specs) results ids = do
    found ← get_security_group spec.name project_id
    sg ← group_or_new spec.name project_id (or_else spec.description "") found
    create_groups project_id specs (results ++ record { name = spec.name; id = sg.id } ∷ [])
        (insert spec.name sg.id ids)

  -- one round of the second pass
  unfoldable pub create_rules : Dict String → SecurityGroupSpec → Exec W Unit
  create_rules ids spec = do
    sg_id ← lift (index_id spec.name ids)
    for_each (or_else spec.rules []) (ensure_rule ids sg_id)

  unfoldable pub ensure_security_groups :
      String → List SecurityGroupSpec → Exec W (List SecurityGroupStatus)
  ensure_security_groups project_id sg_specs = do
    created ← create_groups project_id sg_specs [] []
    for_each sg_specs (create_rules created.1)
    pure created.0

  -- `sg_status.get("id")`: nothing to delete without one
  unfoldable pub delete_security_group : Option String → Exec W Unit
  delete_security_group id =
      if present id
      then catch (client.delete_security_group (or_else id "")) (λ e. pure tt)
      else pure tt

  unfoldable pub delete_security_groups : List (Option String) → Exec W Unit
  delete_security_groups sg_statuses = for_each sg_statuses delete_security_group
