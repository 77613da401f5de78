-- ===== src/Operator/Handlers/Update/Diff.antt =====
-- What `update_project` reads in a kopf diff (openstack-operator/src/handlers.py). A change has a
-- path and two values; the code reads values only at the annotation's own path, as texts, and at
-- the path of all annotations, as dicts.
use Prim.Native.Char.{code}
use openstack_keystone.Prelude.{
  String, Bool, true, false, not, ◌&&◌, ◌||◌, Option, none, some, List, [], ◌∷◌, any, eqb, ◌==◌,
  if◌then◌else◌, contains,
}
use openstack_keystone.Exec.{exception, Result, ok, err}
use openstack_keystone.Dict.{Dict, lookup}

pub record Change : Type 0 where
  pub path : List String
  pub old_text : Option String
  pub new_text : Option String
  pub old_annotations : Dict String
  pub new_annotations : Dict String

abbrev pub contract_tag_reconcile_annotation : String
contract_tag_reconcile_annotation = "sunet.se/reconcile-contract-tag"

unfoldable pub is_prefix : String → String → Bool
is_prefix String.[] t = true
is_prefix (String.◌∷◌ c s) String.[] = false
is_prefix (String.◌∷◌ c s) (String.◌∷◌ d t) = eqb (code c) (code d) && is_prefix s t

-- `s in t`
unfoldable pub is_substring : String → String → Bool
unfolding is_prefix
is_substring s String.[] = is_prefix s ""
is_substring s (String.◌∷◌ d t) = is_prefix s (String.◌∷◌ d t) || is_substring s t

-- `any(word in str(p) for p in changed_paths)`, for a word without punctuation
unfoldable pub mentions : String → List Change → Bool
unfolding is_substring
mentions word diff = any (λ c. any (is_substring word) c.path) diff

-- `any(p[0] in ("description", "enabled") for p in changed_paths)`
unfoldable pub changes_description : List Change → Result Bool
changes_description [] = ok false
changes_description (c ∷ diff) =
    let rest = changes_description diff in
    elim c.path [
      | [] ↦ err (exception "IndexError")
      | key ∷ keys ↦ if contains key ("description" ∷ "enabled" ∷ []) then ok true else rest
    ]

-- `a != b` on optional texts
unfoldable pub other_text : Option String → Option String → Bool
other_text none none = false
other_text none (some b) = true
other_text (some a) none = true
other_text (some a) (some b) = not (a == b)

unfoldable pub same_path : List String → List String → Bool
same_path [] [] = true
same_path [] (y ∷ ys) = false
same_path (x ∷ xs) [] = false
same_path (x ∷ xs) (y ∷ ys) = x == y && same_path xs ys

unfoldable pub in_spec : List String → Bool
in_spec [] = false
in_spec (key ∷ keys) = key == "spec"

-- `annotation_changed` after one round of the loop
unfoldable pub annotation_after : Bool → Change → Bool
unfolding other_text same_path lookup
annotation_after changed c =
    if same_path c.path ("metadata" ∷ "annotations" ∷ contract_tag_reconcile_annotation ∷ [])
    then other_text c.old_text c.new_text
    else if same_path c.path ("metadata" ∷ "annotations" ∷ [])
    then other_text (lookup contract_tag_reconcile_annotation c.old_annotations)
        (lookup contract_tag_reconcile_annotation c.new_annotations)
    else changed

-- the loop, with its two variables
unfoldable pub tag_only_from : Bool → Bool → List Change → Bool
unfolding annotation_after in_spec
tag_only_from annotation_changed spec_changed [] = annotation_changed && not spec_changed
tag_only_from annotation_changed spec_changed (c ∷ diff) =
    tag_only_from (annotation_after annotation_changed c) (spec_changed || in_spec c.path) diff

unfoldable pub is_contract_tag_only_update : List Change → Bool
unfolding tag_only_from
is_contract_tag_only_update diff = tag_only_from false false diff
