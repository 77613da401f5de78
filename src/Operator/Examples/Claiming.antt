-- ===== src/Operator/Examples/Claiming.antt =====
-- Two CRs that ask for one project.
use openstack_keystone.Prelude.{
  String, ◌≡◌, refl, true, false, none, some, List, [], ◌∷◌, inl, inr, present, Elem, eq_iff,
}
use openstack_keystone.Operator.Claims.{ProjectCr}
use openstack_keystone.Operator.Claims.Exclusion.{
  IsClaim, owner_for, SameCr, find_project_owner_cr-excludes,
}
use openstack_keystone.Operator.Claims.Progress.{is_claim, find_project_owner_cr-admits}

abbrev cr_named : String → String → ProjectCr
cr_named name created = record {
  meta_namespace = some "ns";
  meta_name = some name;
  creation_timestamp = some created;
  deletion_timestamp = none;
  spec_name = some "web";
  spec_domain = some "sso";
  status_project_id = none;
}

abbrev pub first_cr : ProjectCr
first_cr = cr_named "a" "2025-01-02"

abbrev second_cr : ProjectCr
second_cr = cr_named "b" "2025-01-03"

abbrev both : List ProjectCr
both = second_cr ∷ first_cr ∷ []

claims_web : (name created : String) → IsClaim "web" "sso" (cr_named name created)
claims_web name created = record {
  has_namespace = refl;
  has_name = refl;
  live = refl;
  of_project = refl;
  of_domain = refl;
}

abbrev pub first_name : String
first_name = "a"

abbrev pub second_name : String
second_name = "b"

pub letters_differ : false ≡ true → ⊥
letters_differ e = cc

not_same : ¬ (SameCr first_cr second_cr)
not_same h = letters_differ ((eq_iff first_name second_name).1 h.1)

find_project_owner_cr-excludes_example :
    ¬ ((owner_for both "web" "sso" first_cr ≡ none) × (owner_for both "web" "sso" second_cr ≡ none))
find_project_owner_cr-excludes_example =
    find_project_owner_cr-excludes both "web" "sso" first_cr second_cr (inr (inl refl)) (inl refl)
      (claims_web "a" "2025-01-02") (claims_web "b" "2025-01-03") not_same

no_ids :
    (x : ProjectCr)
    → Elem x both
    → is_claim "web" "sso" x ≡ true
    → present x.status_project_id ≡ false
no_ids x (inl e) h = rw e refl
no_ids x (inr (inl e)) h = rw e refl
no_ids x (inr (inr m)) h = absurd m

find_project_owner_cr-admits_example :
    (m : ProjectCr) × Elem m both
    × (is_claim "web" "sso" m ≡ true)
    × (owner_for both "web" "sso" m ≡ none)
find_project_owner_cr-admits_example =
    find_project_owner_cr-admits both "web" "sso" second_cr (inl refl) refl no_ids
