-- ===== src/Operator/RoleBinding/Membership.antt =====
-- Who is in the project's group after the role bindings are applied.
use openstack_keystone.Prelude.{
  String, ◌≡◌, ◌≢◌, refl, sym, ap, ◌∙◌, true, false, ◌⊎◌, inl, inr, Option, none, some, List, [],
  ◌∷◌, ◌++◌, map, contains, truthy, or_else, eq_refl, arith, Elem, Bool-cases, if◌then◌else◌,
}
use openstack_keystone.Exec.{Exec, ok, pure, ◌>>=◌, ◌>>◌, for_each, if_found}
use openstack_keystone.Exec.Quiet.{IsOk}
use openstack_keystone.Exec.Inversion.{>>=-IsOk, for_each-IsOk, for_each_last}
use openstack_keystone.Operator.Client.{IdentityClient, User, Role}
use openstack_keystone.Operator.RoleBinding.{
  RoleBinding, add_missing_users, remove_other_users, sync_users_to_group, bind_groups, bind_role,
  apply_binding, apply_role_bindings,
}

-- The documented behaviour of Keystone's groups: `Member w g i` says that the user with ID `i` is
-- in the group `g`, and `name_of` is the name of a user ID. A lookup changes no group, an addition
-- adds only its user, and a removal that succeeds removes its user.
pub record GroupLaws {W : Type 0} (client : IdentityClient W) : Type 1 where
  pub Member : W → String → String → Type 0
  pub name_of : String → String
  pub list_all :
      (w : W) (g i : String) (us : List User)
      → (client.list_group_users g w).0 ≡ ok us
      → Member w g i
      → (u : User) × Elem u us × (u.id ≡ i)
  pub list_names :
      (w : W) (g : String) (us : List User) (u : User)
      → (client.list_group_users g w).0 ≡ ok us
      → Elem u us
      → u.name ≡ name_of u.id
  pub list_keeps :
      (w : W) (g h i : String) → Member (client.list_group_users g w).1 h i → Member w h i
  pub get_user_named :
      (w : W) (n d : String) (u : User) → (client.get_user n d w).0 ≡ ok (some u) → name_of u.id ≡ n
  pub get_user_keeps :
      (w : W) (n d h i : String) → Member (client.get_user n d w).1 h i → Member w h i
  pub add_adds :
      (w : W) (u g h i : String)
      → Member (client.add_user_to_group u g w).1 h i
      → Member w h i ⊎ (i ≡ u)
  pub remove_removes :
      (w : W) (u g i : String)
      → IsOk (client.remove_user_from_group u g w).0
      → Member (client.remove_user_from_group u g w).1 g i
      → Member w g i × (i ≢ u)

contains_head : (x n : String) (ns : List String) → x ≡ n → contains x (n ∷ ns) ≡ true
contains_head x n ns e = rw e (rw (eq_refl n) refl)

contains_tail :
    (x n : String) (ns : List String) → contains x ns ≡ true → contains x (n ∷ ns) ≡ true
contains_tail x n ns h = ground arith

module _ {W : Type 0} {client : IdentityClient W} (laws : GroupLaws client) where
  open laws use {
    Member, name_of, list_all, list_names, list_keeps, get_user_named, get_user_keeps, add_adds,
    remove_removes,
  }

  added_found :
      (n domain g : String) (w : W) (i : String) (found : Option User)
      → (client.get_user n domain w).0 ≡ ok found
      → Member
          (if_found found
            (λ user. client.add_user_to_group user.id g)
            (client.get_user n domain w).1).1
          g
          i
      → Member w g i ⊎ (name_of i ≡ n)
  unfolding if_found pure
  added_found n domain g w i none e m = inl (get_user_keeps w n domain g i m)
  added_found n domain g w i (some user) e m =
      elim (add_adds (client.get_user n domain w).1 user.id g g i m) [
        | inl old ↦ inl (get_user_keeps w n domain g i old)
        | inr new ↦ inr (ap name_of new ∙ get_user_named w n domain user e)
      ]

  added :
      (n domain g : String) (w : W) (i : String)
      → let m = client.get_user n domain >>= λ found.
          if_found found (λ user. client.add_user_to_group user.id g) in
        IsOk (m w).0 → Member (m w).1 g i → Member w g i ⊎ (name_of i ≡ n)
  added n domain g w i h m =
      let next =
        λ (found : Option User). if_found found (λ user. client.add_user_to_group user.id g) in
      let (found, e, after) = >>=-IsOk (client.get_user n domain) next w h in
      added_found n domain g w i found e (rw after at m)

  -- One round of the first loop adds at most a user of the name.
  abbrev add_step : List String → String → String → String → Exec W Unit
  add_step current domain g n =
      if contains n current
      then pure tt
      else (client.get_user n domain >>= λ found.
          if_found found (λ user. client.add_user_to_group user.id g))

  add_step_lem :
      (current : List String) (n domain g : String) (w : W) (i : String)
      → IsOk (add_step current domain g n w).0
      → Member (add_step current domain g n w).1 g i
      → Member w g i ⊎ (name_of i ≡ n)
  unfolding pure
  add_step_lem current n domain g w i h m = elim (Bool-cases (contains n current)) [
    | inl known ↦ inl (rw known at m)
    | inr missing ↦ added n domain g w i (rw missing at h) (rw missing at m)
  ]

  -- One round of the second loop keeps no user of the ID, unless the name is desired.
  abbrev remove_step : List String → String → User → Exec W Unit
  remove_step desired g user =
      if contains user.name desired then pure tt else client.remove_user_from_group user.id g

  remove_step_lem :
      (desired : List String) (g : String) (u : User) (w : W) (i : String)
      → IsOk (remove_step desired g u w).0
      → Member (remove_step desired g u w).1 g i
      → Member w g i × (u.id ≡ i → contains u.name desired ≡ true)
  unfolding pure
  remove_step_lem desired g u w i h m = elim (Bool-cases (contains u.name desired)) [
    | inl wanted ↦ (rw wanted at m, λ e. wanted)
    | inr other ↦
        let (old, ne) = remove_removes w u.id g i (rw other at h) (rw other at m) in
        (old, λ e. absurd (ne (sym e)))
  ]

  -- After the first loop a member was one before or has a desired name.
  add_missing_users_lem :
      (current desired : List String) (domain g : String) (w : W) (i : String)
      → IsOk (add_missing_users client current desired domain g w).0
      → Member (add_missing_users client current desired domain g w).1 g i
      → Member w g i ⊎ (contains (name_of i) desired ≡ true)
  unfolding add_missing_users for_each
  add_missing_users_lem current [] domain g w i h m = inl m
  add_missing_users_lem current (n ∷ ns) domain g w i h m =
      let (first, after) = for_each-IsOk n ns (add_step current domain g) w h in
      elim (add_missing_users_lem current ns domain g (add_step current domain g n w).1 i
        (rw after at h) (rw after at m)) [
          | inl old ↦ elim (add_step_lem current n domain g w i first old) [
            | inl older ↦ inl older
            | inr e ↦ inr (contains_head (name_of i) n ns e)
          ]
          | inr wanted ↦ inr (contains_tail (name_of i) n ns wanted)
        ]

  -- After the second loop no member is a listed user whose name is not desired.
  remove_other_users_lem :
      (us : List User) (desired : List String) (g : String) (w : W) (i : String)
      → IsOk (remove_other_users client us desired g w).0
      → Member (remove_other_users client us desired g w).1 g i
      → Member w g i × ((u : User) → Elem u us → u.id ≡ i → contains u.name desired ≡ true)
  unfolding remove_other_users for_each
  remove_other_users_lem [] desired g w i h m = (m, λ u e. absurd e)
  remove_other_users_lem (u ∷ us) desired g w i h m =
      let step = remove_step desired g in
      let (first, after) = for_each-IsOk u us step w h in
      let (later, listed) =
        remove_other_users_lem us desired g (step u w).1 i (rw after at h) (rw after at m) in
      let (before, own) = remove_step_lem desired g u w i first later in
      (
        before,
        λ v place same. elim place [
          | inl e ↦ rw e (own (ap (λ (x : User). x.id) (sym e) ∙ same))
          | inr k ↦ listed v k same
        ],
      )

  -- After a sync that succeeds, everyone in the group has a desired name.
  pub sync_users_to_group_lem :
      (desired : List String) (domain g : String) (w : W) (i : String)
      → IsOk (sync_users_to_group client desired domain g w).0
      → Member (sync_users_to_group client desired domain g w).1 g i
      → contains (name_of i) desired ≡ true
  unfolding sync_users_to_group
  sync_users_to_group_lem desired domain g w i h m =
      let names = λ (us : List User). map (λ (u : User). u.name) us in
      let loops = λ (us : List User).
        add_missing_users client (names us) desired domain g
        >> remove_other_users client us desired g in
      let (us, listed, after) = >>=-IsOk (client.list_group_users g) loops w h in
      let w₁ = (client.list_group_users g w).1 in
      let add = add_missing_users client (names us) desired domain g in
      let (t, e, after₂) =
        >>=-IsOk add (λ _. remove_other_users client us desired g) w₁ (rw after at h) in
      let w₂ = (add w₁).1 in
      let (kept, wanted) =
        remove_other_users_lem us desired g w₂ i (rw after₂ at (rw after at h))
          (rw after₂ at (rw after at m)) in
      elim (add_missing_users_lem (names us) desired domain g w₁ i (rw e tt) kept) [
        | inl old ↦
            let (u, place, same) = list_all w g i us listed (list_keeps w g g i old) in
            rw (← same) (rw (← list_names w g us u listed place) (wanted u place same))
        | inr new ↦ new
      ]

  bind_role_lem :
      (project g : String) (b : RoleBinding) (domain : String) (role : Role) (w : W) (i : String)
      → truthy g ≡ true
      → IsOk (bind_role client project g b domain false role w).0
      → Member (bind_role client project g b domain false role w).1 g i
      → contains (name_of i) (or_else b.users []) ≡ true
  unfolding bind_role
  bind_role_lem project g b domain role w i t h m =
      let users = or_else b.users [] in
      let user_domain = or_else b.user_domain domain in
      let groups =
        bind_groups client role.id (or_else b.groups []) (or_else b.group_domain domain) project in
      let sync = sync_users_to_group client users user_domain g in
      let assign = client.assign_role_to_group role.id g project in
      let rest = if truthy g then assign >> sync else pure tt in
      let (u, e, after) = >>=-IsOk groups (λ _. rest) w h in
      let w₁ = (groups w).1 in
      let h' = rw t at (rw after at h) in
      let m' = rw t at (rw after at m) in
      let (v, e₂, after₂) = >>=-IsOk assign (λ _. sync) w₁ h' in
      sync_users_to_group_lem users user_domain g (assign w₁).1 i (rw after₂ at h')
        (rw after₂ at m')

  last_found :
      (project g : String) (b : RoleBinding) (domain : String) (w : W) (i : String)
      → truthy g ≡ true
      → ((w' : W) → (client.get_role b.role w').0 ≢ ok none)
      → (found : Option Role) → (client.get_role b.role w).0 ≡ ok found
      → IsOk
          (if_found found
            (bind_role client project g b domain false)
            (client.get_role b.role w).1).0
      → Member
          (if_found found
            (bind_role client project g b domain false)
            (client.get_role b.role w).1).1
          g
          i
      → contains (name_of i) (or_else b.users []) ≡ true
  unfolding if_found
  last_found project g b domain w i t exists none e h m = absurd (exists w e)
  last_found project g b domain w i t exists (some role) e h m =
      bind_role_lem project g b domain role (client.get_role b.role w).1 i t h m

  -- Where the last binding's role is allowed and exists, the project is not managed and the project
  -- has a group, a successful `apply_role_bindings` leaves in that group only users of the last
  -- binding: whoever an earlier binding named, and the last does not, is not a member.
  pub apply_role_bindings-last :
      (allowed : List String) (project g : String) (bs : List RoleBinding) (b : RoleBinding)
      (domain : String) (w : W) (i : String)
      → truthy g ≡ true
      → contains b.role allowed ≡ true
      → ((w' : W) → (client.get_role b.role w').0 ≢ ok none)
      → IsOk (apply_role_bindings client allowed project g (bs ++ b ∷ []) domain false w).0
      → Member (apply_role_bindings client allowed project g (bs ++ b ∷ []) domain false w).1 g i
      → contains (name_of i) (or_else b.users []) ≡ true
  unfolding apply_role_bindings apply_binding
  apply_role_bindings-last allowed project g bs b domain w i t a exists h m =
      let body = apply_binding client allowed project g domain false in
      let (w', last, same) = for_each_last bs b body w h in
      let next =
        λ (found : Option Role). if_found found (bind_role client project g b domain false) in
      let (found, e, after) = >>=-IsOk (client.get_role b.role) next w' (rw a at last) in
      last_found project g b domain w' i t exists found e (rw after at (rw a at last))
        (rw after at (rw a at (rw same at m)))
