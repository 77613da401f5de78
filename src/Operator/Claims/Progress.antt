-- ===== src/Operator/Claims/Progress.antt =====
-- While no live CR has provisioned the project, one of them is let through: no deadlock.
use openstack_keystone.Prelude.{
  String, ◌≡◌, refl, Bool, true, false, ◌&&◌, not, none, List, [], ◌∷◌, arith, inl, inr, present,
  filter, Elem, Elem-filter, Elem-of_filter, Bool-cases, if◌then◌else◌,
}
use openstack_keystone.Operator.Claims.{
  ProjectCr, key_lt, cr_precedence_key, is_text, is_duplicate, find_duplicate_project_crs,
  find_project_owner_cr,
}
use openstack_keystone.Operator.Claims.Order.{key_lt_trans, key_lt_irrefl, none-first_claim}
use openstack_keystone.Operator.Claims.Exclusion.{owner_for, namespace_of, name_of}

abbrev before : ProjectCr → ProjectCr → Bool
before a b = key_lt (cr_precedence_key a) (cr_precedence_key b)

-- The CR with the least key of a list that is not empty.
least : ProjectCr → List ProjectCr → ProjectCr
least c [] = c
least c (x ∷ xs) = let m = least c xs in if before x m then x else m

Elem-if :
    (b : Bool) (x y : ProjectCr) (l : List ProjectCr)
    → Elem x l
    → Elem y l
    → Elem (if b then x else y) l
Elem-if true x y l hx hy = hx
Elem-if false x y l hx hy = hy

Elem-least : (c : ProjectCr) (xs : List ProjectCr) → Elem (least c xs) (c ∷ xs)
unfolding least
Elem-least c [] = inl refl
Elem-least c (x ∷ xs) =
    Elem-if (before x (least c xs)) x (least c xs) (c ∷ x ∷ xs) (inr (inl refl))
      (elim (Elem-least c xs) [ inl e ↦ inl e | inr m ↦ inr (inr m) ])

below_older :
    (c x : ProjectCr) (xs : List ProjectCr) (y : ProjectCr)
    → before x (least c xs) ≡ false
    → (Elem y (c ∷ xs) → before y (least c xs) ≡ false)
    → Elem y (c ∷ x ∷ xs)
    → before y (least c xs) ≡ false
below_older c x xs y older ih (inl e) = ih (inl e)
below_older c x xs y older ih (inr (inl e)) = rw e older
below_older c x xs y older ih (inr (inr m)) = ih (inr m)

not_before : (y x m : ProjectCr) → before x m ≡ true → before y m ≡ false → before y x ≡ false
not_before y x m newer h = elim (Bool-cases (before y x)) [
  | inl earlier ↦
      cc (
        key_lt_trans (cr_precedence_key y) (cr_precedence_key x) (cr_precedence_key m) earlier
          newer)
  | inr later ↦ later
]

below_newer :
    (c x : ProjectCr) (xs : List ProjectCr) (y : ProjectCr)
    → before x (least c xs) ≡ true
    → (Elem y (c ∷ xs) → before y (least c xs) ≡ false)
    → Elem y (c ∷ x ∷ xs)
    → before y x ≡ false
below_newer c x xs y newer ih (inl e) = not_before y x (least c xs) newer (ih (inl e))
below_newer c x xs y newer ih (inr (inl e)) = rw e (key_lt_irrefl (cr_precedence_key x))
below_newer c x xs y newer ih (inr (inr m)) = not_before y x (least c xs) newer (ih (inr m))

least_bound :
    (c : ProjectCr) (xs : List ProjectCr) (y : ProjectCr)
    → Elem y (c ∷ xs)
    → before y (least c xs) ≡ false
unfolding least
least_bound c [] y (inl e) = rw e (key_lt_irrefl (cr_precedence_key c))
least_bound c [] y (inr m) = absurd m
least_bound c (x ∷ xs) y m = elim (Bool-cases (before x (least c xs))) [
  | inl newer ↦ rw newer (below_newer c x xs y newer (least_bound c xs y) m)
  | inr older ↦ rw older (below_older c x xs y older (least_bound c xs y) m)
]

-- The Boolean form of being a live CR that asks for the project in the domain.
abbrev pub is_claim : String → String → ProjectCr → Bool
is_claim project domain cr =
    not (present cr.deletion_timestamp)
    && (is_text cr.spec_name project && is_text cr.spec_domain domain)

duplicate-is_claim :
    (n m project domain : String) (cr : ProjectCr)
    → is_duplicate n m project domain cr ≡ true
    → present cr.deletion_timestamp ≡ false
    → is_claim project domain cr ≡ true
unfolding is_duplicate
duplicate-is_claim n m project domain cr h live = ground arith

least_chosen :
    (items : List ProjectCr) (project domain : String) (c : ProjectCr)
    → Elem c items
    → is_claim project domain c ≡ true
    → let m = least c (filter (is_claim project domain) items) in
      Elem m items × (is_claim project domain m ≡ true)
least_chosen items project domain c mc hc =
    elim (Elem-least c (filter (is_claim project domain) items)) [
      | inl e ↦ rw e (mc, hc)
      | inr k ↦ Elem-of_filter (is_claim project domain) items k
    ]

-- A live duplicate is a claim, so it is not provisioned and not before the least one.
competitor :
    (items : List ProjectCr) (project domain : String) (m : ProjectCr)
    → ((x : ProjectCr)
        → Elem x items
        → is_claim project domain x ≡ true
        → (present x.status_project_id ≡ false) × (before x m ≡ false))
    → (x : ProjectCr)
    → Elem x (find_duplicate_project_crs items (namespace_of m) (name_of m) project domain)
    → present x.deletion_timestamp ≡ false
    → (present x.status_project_id ≡ false) × (before x m ≡ false)
unfolding find_duplicate_project_crs
competitor items project domain m h x dup live =
    let found =
      Elem-of_filter (is_duplicate (namespace_of m) (name_of m) project domain) items dup in
    h x found.0 (duplicate-is_claim (namespace_of m) (name_of m) project domain x found.1 live)

-- If no live CR for the project has a project ID yet, and there is such a CR, then one of them is
-- let through by `create_project`: the one with the least key.
pub find_project_owner_cr-admits :
    (items : List ProjectCr) (project domain : String) (c : ProjectCr)
    → Elem c items
    → is_claim project domain c ≡ true
    → ((x : ProjectCr)
        → Elem x items
        → is_claim project domain x ≡ true
        → present x.status_project_id ≡ false)
    → (m : ProjectCr) × Elem m items
      × (is_claim project domain m ≡ true)
      × (owner_for items project domain m ≡ none)
unfolding find_project_owner_cr
find_project_owner_cr-admits items project domain c mc hc fresh =
    let claims = filter (is_claim project domain) items in
    let m = least c claims in
    let chosen = least_chosen items project domain c mc hc in
    (
      m,
      chosen.0,
      chosen.1,
      none-first_claim (cr_precedence_key m)
          (find_duplicate_project_crs items (namespace_of m) (name_of m) project domain)
          (competitor items project domain m (λ x mx hx. (
            fresh x mx hx,
            least_bound c claims x (inr (Elem-filter (is_claim project domain) items mx hx)),
          ))),
    )
