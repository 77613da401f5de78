-- ===== src/Portal/Billing/Usage/Totals.antt =====
-- What `_canonicalize_volume_usage` bills: a total for each project and metadata.
use openstack_keystone.Prelude.{
  String, ◌≡◌, ◌↔◌, refl, ap, sym, ◌∙◌, true, false, Option, none, some, List, [], ◌∷◌, ◌==◌,
  eq_iff, eq_refl, Bool-cases, inl, inr, arith, if◌then◌else◌,
}
use openstack_keystone.Exec.{Error, ok, err}
use openstack_keystone.Exec.Inversion.{ok-eq, Result-cases}
use openstack_keystone.Dict.{Dict}
use openstack_keystone.Portal.Numbers.{Decimals, pos}
use openstack_keystone.Portal.Billing.Usage.{
  Usage, Key, same_items, same_key, usage_key, canonical_metadata, add_usage, canonicalize_from,
  canonicalize_volume_usage,
}

same_items_refl : (d : Dict String) → same_items d d ≡ true
unfolding same_items
same_items_refl [] = refl
same_items_refl (a ∷ d) = ground (arith, eq_refl a.0, eq_refl a.1, same_items_refl d)

eq_of_same_items : (d e : Dict String) → same_items d e ≡ true → d ≡ e
unfolding same_items
eq_of_same_items [] [] h = refl
eq_of_same_items [] (b ∷ e) h = cc
eq_of_same_items (a ∷ d) [] h = cc
eq_of_same_items ((i, v) ∷ d) ((j, w) ∷ e) h =
    let keys : (i == j) ≡ true = ground (arith, h) in
    let values : (v == w) ≡ true = ground (arith, h) in
    let rest : same_items d e ≡ true = ground (arith, h) in
    let k = (eq_iff i j).0 keys in
    let l = (eq_iff v w).0 values in let r = eq_of_same_items d e rest in cc

same_key_refl : (k : Key) → same_key k k ≡ true
unfolding same_key
same_key_refl k = ground (arith, eq_refl k.0, same_items_refl k.1)

eq_of_same_key : (a b : Key) → same_key a b ≡ true → a ≡ b
unfolding same_key
eq_of_same_key (p, d) (q, e) h =
    let projects : (p == q) ≡ true = ground (arith, h) in
    let items : same_items d e ≡ true = ground (arith, h) in
    let k = (eq_iff p q).0 projects in let l = eq_of_same_items d e items in cc

pub same_key_iff : (a b : Key) → (same_key a b ≡ true) ↔ (a ≡ b)
same_key_iff a b = (eq_of_same_key a b, λ e. rw e (same_key_refl b))

module _ {D : Type 0} (d : Decimals D) where
  -- The hours and the sizes of the first entry with the key.
  pub total : Key → List (Usage D) → Option (D × D)
  total k [] = none
  total k (u ∷ us) = if same_key (usage_key u) k then some (u.hours, u.size_months) else total k us

  -- One more usage for the key.
  pub plus : Option (D × D) → Usage D → Option (D × D)
  plus none u = some (d.add (d.of_int (pos 0)) u.hours, d.add (d.of_int (pos 0)) u.size_months)
  plus (some (hours, size_months)) u = some (d.add hours u.hours, d.add size_months u.size_months)

  total-add_usage :
      (k : Key) (u : Usage D) (us : List (Usage D))
      → total k (add_usage d u us)
        ≡ (if same_key (usage_key u) k then plus (total k us) u else total k us)
  unfolding total plus add_usage
  total-add_usage k u [] = refl
  total-add_usage k u (v ∷ us) = ground (
    arith,
    same_key_iff (usage_key v) (usage_key u),
    same_key_iff (usage_key u) k,
    same_key_iff (usage_key v) k,
    total-add_usage k u us,
  )

  -- No two entries have the same key.
  pub Distinct : List (Usage D) → Type 0
  Distinct [] = Unit
  Distinct (u ∷ us) = (total (usage_key u) us ≡ none) × Distinct us

  add_usage-Distinct :
      (u : Usage D) (us : List (Usage D)) → Distinct us → Distinct (add_usage d u us)
  unfolding Distinct total add_usage
  add_usage-Distinct u [] h = (refl, tt)
  add_usage-Distinct u (v ∷ us) h = elim (Bool-cases (same_key (usage_key v) (usage_key u))) [
    | inl e ↦ rw e h
    | inr e ↦
        let other : same_key (usage_key u) (usage_key v) ≡ false = ground (
          arith,
          e,
          same_key_iff (usage_key v) (usage_key u),
          same_key_iff (usage_key u) (usage_key v),
        ) in
        rw e (total-add_usage (usage_key v) u us ∙ (rw other h.0), add_usage-Distinct u us h.1)
  ]

  -- The usage of a key, added up from left to right.
  pub tally : Key → Option (D × D) → List (Usage D) → Option (D × D)
  unfolding plus
  tally k o [] = o
  tally k o (u ∷ us) = tally k (if same_key (usage_key u) k then plus o u else o) us

  -- The same entries, with the names of their volume types.
  pub Resolved : Dict String → List (Usage D) → List (Usage D) → Type 0
  Resolved type_names [] [] = Unit
  Resolved type_names [] (v ∷ vs) = ⊥
  Resolved type_names (u ∷ us) [] = ⊥
  Resolved type_names (u ∷ us) (v ∷ vs) =
      (canonical_metadata type_names u.metadata ≡ ok v.metadata)
      × (v ≡ record u { metadata = v.metadata })
      × Resolved type_names us vs

  -- What the loop returns from `canonical` on.
  abbrev Adds : Dict String → List (Usage D) → List (Usage D) → List (Usage D) → Type 0
  Adds type_names canonical usage out =
      (vs : List (Usage D)) × Resolved type_names usage vs
      × ((k : Key) → total k out ≡ tally k (total k canonical) vs)
      × Distinct out

  canonicalize_from-Adds :
      (type_names : Dict String) (canonical usage out : List (Usage D))
      → Distinct canonical
      → canonicalize_from d type_names canonical usage ≡ ok out
      → Adds type_names canonical usage out
  unfolding canonicalize_from Resolved tally
  canonicalize_from-Adds type_names canonical [] out h e =
      let same : canonical ≡ out = ok-eq e in
      ([], tt, λ k. ap (total k) (sym same), (rw (← same) h))
  canonicalize_from-Adds type_names canonical (u ∷ us) out h e =
      elim (Result-cases (canonical_metadata type_names u.metadata)) [
        | inl (metadata, found) ↦
            let v : Usage D = record u { metadata = metadata } in
            let (vs, resolved, totals, distinct) =
              canonicalize_from-Adds type_names (add_usage d v canonical) us out
                (add_usage-Distinct v canonical h) (rw (found, canonicalize_from) at e) in
            (
              v ∷ vs,
              (found, refl, resolved),
              λ k. totals k ∙ ap (λ o. tally k o vs) (total-add_usage k v canonical),
              distinct,
            )
        | inr (x, failed) ↦ absurd (raised x (rw (failed, canonicalize_from) at e))
      ]
    where
      raised : (x : Error) → err x ≡ ok out → ⊥
      raised x e = cc

  -- A canonicalization that succeeds resolves the volume type of every entry, and returns one entry
  -- for each project and metadata, with the sum of the hours and the sizes of its entries.
  pub canonicalize_volume_usage-Adds :
      (usage out : List (Usage D)) (type_names : Dict String)
      → canonicalize_volume_usage d usage type_names ≡ ok out
      → (vs : List (Usage D)) × Resolved type_names usage vs
        × ((k : Key) → total k out ≡ tally k none vs)
        × Distinct out
  unfolding canonicalize_volume_usage total Distinct
  canonicalize_volume_usage-Adds usage out type_names e =
      canonicalize_from-Adds type_names [] usage out tt e
