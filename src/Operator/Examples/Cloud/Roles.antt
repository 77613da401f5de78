-- ===== src/Operator/Examples/Cloud/Roles.antt =====
-- Role bindings, one of them with a role outside the allowlist.
use openstack_keystone.Prelude.{
  String, ◌≡◌, ◌≢◌, refl, sym, ap, ◌∙◌, true, false, not, Option, none, some, List, [], ◌∷◌, ◌++◌,
  map, contains, or_else, inl, inr, Elem, Elem-of_filter, All, ◌==◌, eq_refl,
}
use openstack_keystone.Exec.{ok, ◌>>=◌, for_each, if_found}
use openstack_keystone.Exec.Keeps.{Keeps}
use openstack_keystone.Exec.Quiet.{IsOk}
use openstack_keystone.Exec.Inversion.{ok-eq}
use openstack_keystone.Operator.Client.{User, Role}
use openstack_keystone.Operator.RoleBinding.{
  RoleBinding, default_allowed_roles, sync_users_to_group, add_missing_users, remove_other_users,
  bind_role, bind_groups, apply_binding, apply_role_bindings,
}
use openstack_keystone.Operator.RoleBinding.Allowed.{OnlyAllowed, apply_role_bindings-Keeps}
use openstack_keystone.Operator.RoleBinding.Membership.{
  GroupLaws, sync_users_to_group_lem, apply_role_bindings-last,
}
use openstack_keystone.Operator.Examples.Cloud.{World, new_world, identity, user_called, without}

-- The role has an allowed name.
abbrev Good : String → Type 0
Good role = contains role default_allowed_roles ≡ true

abbrev OnlyGood : World → Type 0
OnlyGood w = All Good w.assigned

only_good : OnlyAllowed identity default_allowed_roles Good OnlyGood
only_good = record {
  role_good = λ n w role allowed h.
      ap (λ (o : Option Role). contains (elim o [ none ↦ n | some r ↦ r.id ]) default_allowed_roles)
        (sym (ok-eq h))
      ∙ allowed;
  get_role_keeps = λ n. record { at = λ w h. h };
  get_group_keeps = λ n d. record { at = λ w h. h };
  get_user_keeps = λ n d. record { at = λ w h. h };
  list_keeps = λ g. record { at = λ w h. h };
  add_keeps = λ u g. record { at = λ w h. h };
  remove_keeps = λ u g. record { at = λ w h. h };
  assign_group_keeps = λ r g p good. record { at = λ w h. (good, h) };
  assign_user_keeps = λ r u p good. record { at = λ w h. (good, h) };
}

abbrev binding_of : String → List String → RoleBinding
binding_of role users = record {
  role = role;
  users = some users;
  user_domain = none;
  groups = none;
  group_domain = none;
}

abbrev bindings : List RoleBinding
bindings = binding_of "admin" ("eve" ∷ []) ∷ binding_of "member" ("ada" ∷ []) ∷ []

apply_role_bindings-Keeps_example :
    Keeps OnlyGood (apply_role_bindings identity default_allowed_roles "p" "g" bindings "sso" false)
apply_role_bindings-Keeps_example =
    apply_role_bindings-Keeps identity default_allowed_roles only_good "p" "g" bindings "sso" false

listed :
    (ms : List String) (i : String)
    → Elem i ms
    → (u : User) × Elem u (map user_called ms) × (u.id ≡ i)
listed [] i m = absurd m
listed (n ∷ ms) i (inl e) = (user_called n, inl refl, sym e)
listed (n ∷ ms) i (inr m) = let (u, h, e) = listed ms i m in (u, inr h, e)

named_by_id : (ms : List String) (u : User) → Elem u (map user_called ms) → u.name ≡ u.id
named_by_id [] u m = absurd m
named_by_id (n ∷ ms) u (inl e) = rw e refl
named_by_id (n ∷ ms) u (inr m) = named_by_id ms u m

left_over : (u i : String) (ms : List String) → Elem i (without u ms) → Elem i ms × (i ≢ u)
left_over u i ms m =
    let (there, kept) = Elem-of_filter (λ x. not (x == u)) ms m in
    (there, λ e. no (sym (rw (e, eq_refl u) at kept)))
  where
    no : true ≡ false → ⊥
    no h = cc

abbrev group_laws : GroupLaws identity
group_laws = record {
  Member = λ w g i. Elem i w.members;
  name_of = λ i. i;
  list_all = λ w g i us h m. rw (← ok-eq h) (listed w.members i m);
  list_names = λ w g us u h m. named_by_id w.members u (rw (ok-eq h) m);
  list_keeps = λ w g h i m. m;
  get_user_named =
      λ w n d u h. sym (ap (λ (o : Option User). elim o [ none ↦ n | some x ↦ x.id ]) (ok-eq h));
  get_user_keeps = λ w n d h i m. m;
  add_adds = λ w u g h i m. elim m [ inl e ↦ inr e | inr old ↦ inl old ];
  remove_removes = λ w u g i h m. left_over u i w.members m;
}

synced : IsOk (sync_users_to_group identity ("ada" ∷ []) "sso" "g" new_world).0
unfolding sync_users_to_group add_missing_users remove_other_users for_each if_found ◌>>=◌
synced = tt

member : Elem "ada" (sync_users_to_group identity ("ada" ∷ []) "sso" "g" new_world).1.members
unfolding sync_users_to_group add_missing_users remove_other_users for_each if_found ◌>>=◌
member = inl refl

sync_users_to_group_lem_example : contains "ada" ("ada" ∷ []) ≡ true
sync_users_to_group_lem_example =
    sync_users_to_group_lem group_laws ("ada" ∷ []) "sso" "g" new_world "ada" synced member

abbrev earlier : List RoleBinding
earlier = binding_of "member" ("eve" ∷ []) ∷ []

abbrev last : RoleBinding
last = binding_of "reader" ("ada" ∷ [])

role_exists : (w : World) → (identity.get_role "reader" w).0 ≢ ok none
role_exists w h = some_none (ok-eq h)
  where
    some_none : {r : Role} → some r ≡ none → ⊥
    some_none e = cc

applied :
    IsOk
      (apply_role_bindings identity default_allowed_roles "p" "g"
        (earlier ++ last ∷ [])
        "sso"
        false
        new_world).0
unfolding apply_role_bindings apply_binding bind_role bind_groups sync_users_to_group
    add_missing_users remove_other_users for_each if_found ◌>>=◌
applied = tt

remains :
    Elem "ada"
      (apply_role_bindings identity default_allowed_roles "p" "g"
        (earlier ++ last ∷ [])
        "sso"
        false
        new_world).1.members
unfolding apply_role_bindings apply_binding bind_role bind_groups sync_users_to_group
    add_missing_users remove_other_users for_each if_found ◌>>=◌
remains = inl refl

apply_role_bindings-last_example : contains "ada" (or_else last.users []) ≡ true
apply_role_bindings-last_example =
    apply_role_bindings-last group_laws default_allowed_roles "p" "g" earlier last "sso" new_world
      "ada" refl refl role_exists applied remains
