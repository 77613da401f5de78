-- ===== src/Portal/Billing/Usage.antt =====
-- `_resolve_cinder_volume_type` and `_canonicalize_volume_usage` (customer-portal/app/billing_runner.py).
pub mod Totals
use openstack_keystone.Prelude.{
  ℕ, String, Bool, true, false, ◌&&◌, Option, none, some, List, [], ◌∷◌, any, truthy, concat, ◌==◌,
  text_lt, if◌then◌else◌,
}
use openstack_keystone.Exec.{exception, Result, ok, err}
use openstack_keystone.Dict.{Dict, lookup, insert}
use openstack_keystone.Portal.Numbers.{Decimals, pos}

pub record Usage (D : Type 0) : Type 0 where
  pub project_id : String
  pub metric : String
  pub metadata : Dict String
  pub hours : D
  pub size_months : D

-- `_resolve_cinder_volume_type`
unfoldable pub resolve_cinder_volume_type : String → Dict String → Result String
unfolding lookup
resolve_cinder_volume_type value type_names = elim (lookup value type_names) [
  | some name ↦ ok name
  | none ↦
      if any (λ (item : String × String). item.1 == value) type_names
      then ok value
      else err (exception (concat "Cinder volume type is unknown or no longer active: " value))
]

unfoldable pub with_volume_type : Dict String → Result String → Result (Dict String)
unfolding insert
with_volume_type metadata (err e) = err e
with_volume_type metadata (ok name) = ok (insert "volume_type" name metadata)

-- The metadata with the volume type's name.
unfoldable pub canonical_metadata : Dict String → Dict String → Result (Dict String)
unfolding lookup resolve_cinder_volume_type with_volume_type
canonical_metadata type_names metadata = elim (lookup "volume_type" metadata) [
  | none ↦ err (exception "Volume usage is missing volume_type")
  | some raw ↦
      if truthy raw
      then with_volume_type metadata (resolve_cinder_volume_type raw type_names)
      else err (exception "Volume usage is missing volume_type")
]

-- `tuple((field, metadata[field]) for field in sorted(metadata))`
unfoldable pub insert_item : String × String → Dict String → Dict String
insert_item item [] = item ∷ []
insert_item item (other ∷ d) =
    let rest = insert_item item d in
    if text_lt other.0 item.0 then other ∷ rest else item ∷ other ∷ d

unfoldable pub sorted_items : Dict String → Dict String
unfolding insert_item
sorted_items [] = []
sorted_items (item ∷ d) = insert_item item (sorted_items d)

unfoldable pub same_items : Dict String → Dict String → Bool
same_items [] [] = true
same_items [] (b ∷ e) = false
same_items (a ∷ d) [] = false
same_items (a ∷ d) (b ∷ e) = (a.0 == b.0 && a.1 == b.1) && same_items d e

abbrev pub Key : Type 0
Key = String × Dict String

unfoldable pub same_key : Key → Key → Bool
unfolding same_items
same_key a b = a.0 == b.0 && same_items a.1 b.1

module _ {D : Type 0} where
  unfoldable pub usage_key : Usage D → Key
  unfolding sorted_items
  usage_key entry = (entry.project_id, sorted_items entry.metadata)

  module _ (d : Decimals D) where
    -- `canonical.setdefault(key, …)` and the two additions, for an entry with its canonical metadata.
    -- The dict is the list of its values, since each value has its key.
    unfoldable pub add_usage : Usage D → List (Usage D) → List (Usage D)
    unfolding same_key usage_key
    add_usage entry [] =
        record entry {
          hours = d.add (d.of_int (pos 0)) entry.hours;
          size_months = d.add (d.of_int (pos 0)) entry.size_months;
        }
        ∷ []
    add_usage entry (result ∷ canonical) =
        let rest = add_usage entry canonical in
        if same_key (usage_key result) (usage_key entry)
        then record result {
          hours = d.add result.hours entry.hours;
          size_months = d.add result.size_months entry.size_months;
        }
          ∷ canonical
        else result ∷ rest

    -- the loop, from what `canonical` holds
    unfoldable pub canonicalize_from :
        Dict String → List (Usage D) → List (Usage D) → Result (List (Usage D))
    unfolding canonical_metadata add_usage
    canonicalize_from type_names canonical [] = ok canonical
    canonicalize_from type_names canonical (entry ∷ usage) =
        elim (canonical_metadata type_names entry.metadata) [
          | err e ↦ err e
          | ok metadata ↦
              canonicalize_from type_names
                (add_usage (record entry { metadata = metadata }) canonical) usage
        ]

    -- `_canonicalize_volume_usage`
    unfoldable pub canonicalize_volume_usage :
        List (Usage D) → Dict String → Result (List (Usage D))
    unfolding canonicalize_from
    canonicalize_volume_usage usage type_names = canonicalize_from type_names [] usage
