-- ===== src/Operator/Claims/Exclusion.antt =====
-- Two live CRs that name one project and domain cannot both be let through.
use openstack_keystone.Prelude.{
  String, ◌≡◌, sym, true, false, ◌&&◌, not, Option, none, some, List, ◌==◌, eq_iff, eq_refl, arith,
  present, or_else, Elem, Elem-filter,
}
use openstack_keystone.Operator.Claims.{
  ProjectCr, key_lt, cr_precedence_key, is_duplicate, find_duplicate_project_crs,
  find_project_owner_cr,
}
use openstack_keystone.Operator.Claims.Order.{key_lt_total, first_claim-none}

abbrev pub namespace_of : ProjectCr → String
namespace_of cr = or_else cr.meta_namespace ""

abbrev pub name_of : ProjectCr → String
name_of cr = or_else cr.meta_name ""

-- The CR that `create_project` runs for: it has a namespace and a name, is not being deleted, and
-- asks for the project in the domain.
pub record IsClaim (project domain : String) (cr : ProjectCr) : Type 0 where
  pub has_namespace : cr.meta_namespace ≡ some (namespace_of cr)
  pub has_name : cr.meta_name ≡ some (name_of cr)
  pub live : present cr.deletion_timestamp ≡ false
  pub of_project : cr.spec_name ≡ some project
  pub of_domain : cr.spec_domain ≡ some domain

-- What `create_project` asks for the CR: the CR that owns its project already, if any.
abbrev pub owner_for : List ProjectCr → String → String → ProjectCr → Option String
owner_for items project domain cr =
    find_project_owner_cr items (namespace_of cr) (name_of cr) (or_else cr.creation_timestamp "")
      project domain

-- Two CRs are told apart by namespace and name.
abbrev pub SameCr : ProjectCr → ProjectCr → Type 0
SameCr a b = (namespace_of a ≡ namespace_of b) × (name_of a ≡ name_of b)

other_not_self :
    (n m n' m' project domain : String)
    → ¬ ((n ≡ n') × (m ≡ m'))
    → (not ((n' == n) && (m' == m)) && ((project == project) && (domain == domain))) ≡ true
other_not_self n m n' m' project domain ne =
    grind (arith, eq_iff n' n, eq_iff m' m, eq_refl project, eq_refl domain)

pub is_duplicate-IsClaim :
    (project domain : String) (a b : ProjectCr)
    → IsClaim project domain b
    → ¬ (SameCr a b)
    → is_duplicate (namespace_of a) (name_of a) project domain b ≡ true
unfolding is_duplicate
is_duplicate-IsClaim project domain a b cb ne =
    rw (cb.has_namespace, cb.has_name, cb.of_project, cb.of_domain)
      (other_not_self (namespace_of a) (name_of a) (namespace_of b) (name_of b) project domain ne)

-- A CR that is let through has no competitor that is provisioned or comes before it.
pub owner_for-none :
    (items : List ProjectCr) (project domain : String) (a b : ProjectCr)
    → owner_for items project domain a ≡ none
    → Elem b items
    → IsClaim project domain b
    → ¬ (SameCr a b)
    → (present b.status_project_id ≡ false)
      × (key_lt (cr_precedence_key b) (cr_precedence_key a) ≡ false)
unfolding find_project_owner_cr
owner_for-none items project domain a b h m cb ne =
    first_claim-none (cr_precedence_key a)
      (find_duplicate_project_crs items (namespace_of a) (name_of a) project domain) b h
      (Elem-filter _ items m (is_duplicate-IsClaim project domain a b cb ne)) cb.live

-- Of two different live CRs in the list that ask for the same project in the same domain, at most
-- one is let through: `create_project` finds another owner for at least one of them.
pub find_project_owner_cr-excludes :
    (items : List ProjectCr) (project domain : String) (a b : ProjectCr)
    → Elem a items
    → Elem b items
    → IsClaim project domain a
    → IsClaim project domain b
    → ¬ (SameCr a b)
    → ¬ ((owner_for items project domain a ≡ none) × (owner_for items project domain b ≡ none))
find_project_owner_cr-excludes items project domain a b ma mb ca cb ne (ha, hb) =
    let ab = owner_for-none items project domain a b ha mb cb ne in
    let ba = owner_for-none items project domain b a hb ma ca (λ e. ne (sym e.0, sym e.1)) in
    let same = key_lt_total (cr_precedence_key a) (cr_precedence_key b) ba.1 ab.1 in
    unfold cr_precedence_key in ne (same.1, same.2)
