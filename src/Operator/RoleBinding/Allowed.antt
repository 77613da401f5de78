-- ===== src/Operator/RoleBinding/Allowed.antt =====
-- Only roles of the allowlist are ever assigned.
use openstack_keystone.Prelude.{String, ◌≡◌, ap, ◌∙◌, Bool, true, some, List, contains}
use openstack_keystone.Exec.{ok, pure}
use openstack_keystone.Exec.Keeps.{Keeps, Keeps-if, Keeps-bind_post, Keeps-if_found, keeps_rules}
use openstack_keystone.Operator.Client.{IdentityClient, Role}
use openstack_keystone.Operator.RoleBinding.{
  RoleBinding, sync_user_role_assignments, add_missing_users, remove_other_users,
  sync_users_to_group, bind_groups, bind_role, apply_binding, apply_role_bindings,
}

module _ {W : Type 0} (client : IdentityClient W) (allowed : List String) where
  open client use {
    get_group, get_user, add_user_to_group, remove_user_from_group, list_group_users, get_role,
    assign_role_to_group, assign_role_to_user,
  }

  -- `Good` holds of the IDs of the roles whose names are allowed, and `P` is kept by every call that
  -- `apply_role_bindings` makes, where the two assignments keep it for a good role only.
  pub record OnlyAllowed (Good : String → Type 0) (P : W → Type 0) : Type 0 where
    pub role_good :
        (name : String) (w : W) (role : Role)
        → contains name allowed ≡ true
        → (get_role name w).0 ≡ ok (some role)
        → Good role.id
    pub get_role_keeps : (name : String) → Keeps P (get_role name)
    pub get_group_keeps : (name domain : String) → Keeps P (get_group name domain)
    pub get_user_keeps : (name domain : String) → Keeps P (get_user name domain)
    pub list_keeps : (group : String) → Keeps P (list_group_users group)
    pub add_keeps : (user group : String) → Keeps P (add_user_to_group user group)
    pub remove_keeps : (user group : String) → Keeps P (remove_user_from_group user group)
    pub assign_group_keeps :
        (role group project : String)
        → Good role
        → Keeps P (assign_role_to_group role group project)
    pub assign_user_keeps :
        (role user project : String) → Good role → Keeps P (assign_role_to_user role user project)

  module _ {Good : String → Type 0} {P : W → Type 0} (o : OnlyAllowed Good P) where
    open o use {
      role_good, get_role_keeps, get_group_keeps, get_user_keeps, list_keeps, add_keeps,
      remove_keeps, assign_group_keeps, assign_user_keeps,
    }

    sync_users-Keeps :
        (users : List String) (domain group : String)
        → Keeps P (sync_users_to_group client users domain group)
    unfolding sync_users_to_group add_missing_users remove_other_users
    sync_users-Keeps users domain group =
        search (keeps_rules, get_user_keeps, list_keeps, add_keeps, remove_keeps) depth 9

    sync_roles-Keeps :
        (role : String) (users : List String) (domain project : String)
        → Good role
        → Keeps P (sync_user_role_assignments client role users domain project)
    unfolding sync_user_role_assignments
    sync_roles-Keeps role users domain project good =
        search (keeps_rules, get_user_keeps, assign_user_keeps) depth 9

    bind_groups-Keeps :
        (role : String) (groups : List String) (domain project : String)
        → Good role
        → Keeps P (bind_groups client role groups domain project)
    unfolding bind_groups
    bind_groups-Keeps role groups domain project good =
        search (keeps_rules, get_group_keeps, assign_group_keeps) depth 9

    bind_role-Keeps :
        (project group : String) (b : RoleBinding) (domain : String) (managed : Bool) (role : Role)
        → Good role.id
        → Keeps P (bind_role client project group b domain managed role)
    unfolding bind_role
    bind_role-Keeps project group b domain managed role good =
        search
          (keeps_rules, bind_groups-Keeps, sync_roles-Keeps, sync_users-Keeps, assign_group_keeps)
          depth 9

    apply_binding-Keeps :
        (project group domain : String) (managed : Bool) (b : RoleBinding)
        → Keeps P (apply_binding client allowed project group domain managed b)
    unfolding apply_binding
    apply_binding-Keeps project group domain managed b =
        Keeps-if (contains b.role allowed) _ (pure tt)
          (λ is_allowed.
            Keeps-bind_post (λ found. (role : Role) → found ≡ some role → Good role.id)
              (get_role b.role) _ (get_role_keeps b.role)
              (λ w found e role is. role_good b.role w role is_allowed (e ∙ ap ok is))
              (λ found good.
                Keeps-if_found found _
                  (λ role is. bind_role-Keeps project group b domain managed role (good role is))))
          (λ _. search keeps_rules)

    -- Whatever the bindings ask for, and whether or not a call fails on the way, no role is assigned
    -- to a group or to a user but one that `get_role` returned for an allowed name: every property
    -- of the cloud that lookups, membership changes and assignments of such roles keep is kept.
    pub apply_role_bindings-Keeps :
        (project group : String) (bindings : List RoleBinding) (domain : String) (managed : Bool)
        → Keeps P (apply_role_bindings client allowed project group bindings domain managed)
    unfolding apply_role_bindings
    apply_role_bindings-Keeps project group bindings domain managed =
        search (keeps_rules, apply_binding-Keeps)
