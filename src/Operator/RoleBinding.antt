-- ===== src/Operator/RoleBinding.antt =====
-- Role bindings of a project (openstack-operator/src/resources/role_binding.py). The value of the
-- environment variable ALLOWED_OPENSTACK_ROLES is an argument, and Python's `str.strip`, which
-- works by the Unicode tables, a parameter. `role` is a key that the CRD requires of a binding.
pub mod Allowed
pub mod Membership
use Prim.Native.Char.{Char, code}
use Prim.Native.String
use openstack_keystone.Prelude.{
  String, Bool, true, false, not, Option, none, some, List, [], ◌∷◌, ◌++◌, map, filter, contains,
  eqb, truthy, or_else, if◌then◌else◌,
}
use openstack_keystone.Exec.{Exec, pure, ◌>>=◌, ◌>>◌, for_each, if_found}
use openstack_keystone.Operator.Client.{IdentityClient, Role, User, Group}

pub record RoleBinding : Type 0 where
  pub role : String
  pub users : Option (List String)
  pub user_domain : Option String
  pub groups : Option (List String)
  pub group_domain : Option String

abbrev pub default_allowed_roles : List String
default_allowed_roles =
    "reader" ∷ "member" ∷ "load-balancer_member" ∷ "heat_stack_user" ∷ "heat_stack_owner" ∷ []

-- A character in front of the first piece.
abbrev push_char : Char → List String → List String
push_char c [] = (String.◌∷◌ c "") ∷ []
push_char c (p ∷ ps) = (String.◌∷◌ c p) ∷ ps

-- `s.split(",")`
unfoldable pub split_commas : String → List String
split_commas String.[] = "" ∷ []
split_commas (String.◌∷◌ c s) =
    let rest = split_commas s in if eqb (code c) b',' then "" ∷ rest else push_char c rest

module _ (strip : String → String) where
  unfoldable pub allowed_roles : String → List String
  unfolding split_commas
  allowed_roles environment =
      let override = strip environment in
      if truthy override
      then filter truthy (map strip (split_commas override))
      else default_allowed_roles

module _ {W : Type 0} (client : IdentityClient W) where
  open client use {
    get_group, get_user, add_user_to_group, remove_user_from_group, list_group_users, get_role,
    assign_role_to_group, assign_role_to_user,
  }

  unfoldable pub sync_user_role_assignments : String → List String → String → String → Exec W Unit
  sync_user_role_assignments role_id desired_users user_domain project_id =
      for_each desired_users λ username. get_user username user_domain >>= λ found.
      if_found found (λ user. assign_role_to_user role_id user.id project_id)

  -- the first loop of `_sync_users_to_group`
  unfoldable pub add_missing_users : List String → List String → String → String → Exec W Unit
  add_missing_users current_usernames desired_users user_domain group_id =
      for_each desired_users λ username.
        if contains username current_usernames
        then pure tt
        else (get_user username user_domain >>= λ found.
            if_found found (λ user. add_user_to_group user.id group_id))

  -- the second loop
  unfoldable pub remove_other_users : List User → List String → String → Exec W Unit
  remove_other_users current_members desired_users group_id = for_each current_members λ user.
      if contains user.name desired_users then pure tt else remove_user_from_group user.id group_id

  unfoldable pub sync_users_to_group : List String → String → String → Exec W Unit
  sync_users_to_group desired_users user_domain group_id = do
    current_members ← list_group_users group_id
    add_missing_users (map (λ u. u.name) current_members) desired_users user_domain group_id
    remove_other_users current_members desired_users group_id

  -- the group bindings of one role binding
  unfoldable pub bind_groups : String → List String → String → String → Exec W Unit
  bind_groups role_id groups group_domain project_id = for_each groups λ group_name.
      get_group group_name group_domain >>= λ found.
      if_found found (λ group. assign_role_to_group role_id group.id project_id)

  -- the rest of the loop's body, once the role is found
  unfoldable pub bind_role : String → String → RoleBinding → String → Bool → Role → Exec W Unit
  bind_role project_id group_id binding project_domain managed role = do
    let users = or_else binding.users []
    let user_domain = or_else binding.user_domain project_domain
    bind_groups role.id (or_else binding.groups []) (or_else binding.group_domain project_domain)
        project_id
    if managed
        then sync_user_role_assignments role.id users user_domain project_id
        else if truthy group_id
        then (do
          assign_role_to_group role.id group_id project_id
          sync_users_to_group users user_domain group_id)
        else pure tt

  -- the loop's body: a role that is not allowed, or not found, is skipped
  unfoldable pub apply_binding :
      List String → String → String → String → Bool → RoleBinding → Exec W Unit
  apply_binding allowed project_id group_id project_domain managed binding =
      if contains binding.role allowed
      then (get_role binding.role >>= λ found.
          if_found found (bind_role project_id group_id binding project_domain managed))
      else pure tt

  unfoldable pub apply_role_bindings :
      List String → String → String → List RoleBinding → String → Bool → Exec W Unit
  apply_role_bindings allowed project_id group_id role_bindings project_domain managed =
      for_each role_bindings (apply_binding allowed project_id group_id project_domain managed)

-- `get_users_from_role_bindings`: each user once, in order of first mention
unfoldable pub add_new_users : List String → List String → List String
add_new_users users [] = users
add_new_users users (user ∷ rest) =
    add_new_users (if contains user users then users else users ++ user ∷ []) rest

unfoldable pub collect_users : List String → List RoleBinding → List String
collect_users users [] = users
collect_users users (binding ∷ rest) =
    collect_users (add_new_users users (or_else binding.users [])) rest

unfoldable pub get_users_from_role_bindings : List RoleBinding → List String
unfolding collect_users add_new_users
get_users_from_role_bindings role_bindings = collect_users [] role_bindings
