-- ===== src/Operator/Claims.antt =====
-- Which OpenstackProject CR may own a Keystone project (openstack-operator/src/utils.py):
-- `_cr_identity`, `_cr_precedence_key`, `find_duplicate_project_crs`, `find_project_owner_cr`.
-- A CR is the dict that Kubernetes returns; its optional keys are options.
pub mod Order
pub mod Exclusion
pub mod Progress
use openstack_keystone.Prelude.{
  String, Bool, true, false, not, ◌&&◌, Option, none, some, List, [], ◌∷◌, filter, ◌==◌,
  if◌then◌else◌, concat, present, text_lt, or_else,
}

pub record ProjectCr : Type 0 where
  pub meta_namespace : Option String
  pub meta_name : Option String
  pub creation_timestamp : Option String
  pub deletion_timestamp : Option String
  pub spec_name : Option String
  pub spec_domain : Option String
  pub status_project_id : Option String

-- `d.get(k) == s`, for a text `s`
abbrev pub is_text : Option String → String → Bool
is_text none s = false
is_text (some t) s = t == s

unfoldable pub cr_identity : ProjectCr → String
cr_identity cr = concat (or_else cr.meta_namespace "") (concat "/" (or_else cr.meta_name ""))

-- `_cr_precedence_key`: the tuple (creation time, namespace, name)
pub record Key : Type 0 where
  pub created : String
  pub in_namespace : String
  pub called : String

unfoldable pub cr_precedence_key : ProjectCr → Key
cr_precedence_key cr = record {
  created = or_else cr.creation_timestamp "";
  in_namespace = or_else cr.meta_namespace "";
  called = or_else cr.meta_name "";
}

-- `<` on tuples: the first parts that differ decide.
unfoldable pub key_lt : Key → Key → Bool
key_lt a b =
    if a.created == b.created
    then (if a.in_namespace == b.in_namespace
        then text_lt a.called b.called
        else text_lt a.in_namespace b.in_namespace)
    else text_lt a.created b.created

-- The test of the loop: another CR with the same spec.name and spec.domain.
unfoldable pub is_duplicate : String → String → String → String → ProjectCr → Bool
is_duplicate namespace name project_name domain cr =
    not (is_text cr.meta_namespace namespace && is_text cr.meta_name name)
    && (is_text cr.spec_name project_name && is_text cr.spec_domain domain)

unfoldable pub find_duplicate_project_crs :
    List ProjectCr → String → String → String → String → List ProjectCr
unfolding is_duplicate
find_duplicate_project_crs cr_items namespace name project_name domain =
    filter (is_duplicate namespace name project_name domain) cr_items

-- The loop over the duplicates: the first CR with a prior claim, if any.
unfoldable pub first_claim : Key → List ProjectCr → Option String
first_claim my_key [] = none
first_claim my_key (cr ∷ crs) =
    let rest = first_claim my_key crs in
    if present cr.deletion_timestamp
    then rest
    else if present cr.status_project_id
    then some (cr_identity cr)
    else if key_lt (cr_precedence_key cr) my_key
    then some (cr_identity cr)
    else rest

unfoldable pub find_project_owner_cr :
    List ProjectCr → String → String → String → String → String → Option String
unfolding find_duplicate_project_crs first_claim cr_identity cr_precedence_key key_lt
find_project_owner_cr cr_items namespace name creation_timestamp project_name domain =
    first_claim (record { created = creation_timestamp; in_namespace = namespace; called = name })
      (find_duplicate_project_crs cr_items namespace name project_name domain)
