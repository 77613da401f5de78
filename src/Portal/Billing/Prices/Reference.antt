-- ===== src/Portal/Billing/Prices/Reference.antt =====
-- `_find_price` against a description that looks at the price list twice.
use openstack_keystone.Prelude.{
  String, ◌≡◌, refl, sym, ap, ◌∙◌, Option, none, some, List, [], ◌∷◌, find, filter, Bool-cases, inl,
  inr,
}
use openstack_keystone.Dict.{Dict}
use openstack_keystone.Portal.Billing.Prices.{
  ResourcePrice, is_specific, is_base, base_after, find_price_from, find_price,
}

module _ {A : Type 0} where
  pub otherwise : Option A → Option A → Option A
  otherwise (some a) o = some a
  otherwise none o = o

  pub last_of : List A → Option A
  last_of [] = none
  last_of (x ∷ xs) = otherwise (last_of xs) (some x)

  otherwise_assoc : (a b c : Option A) → otherwise (otherwise a b) c ≡ otherwise a (otherwise b c)
  unfolding otherwise
  otherwise_assoc (some a) b c = refl
  otherwise_assoc none b c = refl

  otherwise-none : (o : Option A) → otherwise o none ≡ o
  unfolding otherwise
  otherwise-none none = refl
  otherwise-none (some a) = refl

module _ {D : Type 0} (metric : String) (metadata : Dict String) where
  -- what the loop returns from a base match on
  from_lem :
      (base_match : Option (ResourcePrice D)) (prices : List (ResourcePrice D))
      → find_price_from base_match metric metadata prices
        ≡ otherwise
            (find (is_specific metric metadata) prices)
            (otherwise (last_of (filter (is_base metric) prices)) base_match)
  unfolding find_price_from base_after otherwise last_of
  from_lem base_match [] = refl
  from_lem base_match (p ∷ prices) = elim (Bool-cases (is_specific metric metadata p)) [
    | inl e ↦ rw e refl
    | inr e ↦ rw e (elim (Bool-cases (is_base metric p)) [
      | inl b ↦ rw b (
          from_lem (some p) prices
          ∙ ap (otherwise (find (is_specific metric metadata) prices)) (
              sym (otherwise_assoc (last_of (filter (is_base metric) prices)) (some p) base_match)))
      | inr b ↦ rw b (from_lem base_match prices)
    ])
  ]

  -- The price that is found is the first one for a value of the metadata that the usage has, and
  -- where there is none, the last one of the metric without a metadata field.
  pub find_price-otherwise :
      (prices : List (ResourcePrice D))
      → find_price prices metric metadata
        ≡ otherwise
            (find (is_specific metric metadata) prices)
            (last_of (filter (is_base metric) prices))
  unfolding find_price
  find_price-otherwise prices =
      from_lem none prices
      ∙ ap (otherwise (find (is_specific metric metadata) prices))
          (otherwise-none (last_of (filter (is_base metric) prices)))
