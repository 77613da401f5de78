-- ===== src/Portal/Billing/Fees/Sorting.antt =====
-- Sorting the packages: equal numbers keep their order, and the last one is the largest.
use openstack_keystone.Prelude.{
  ℕ, ◌≤◌, ◌≡◌, refl, ◌∙◌, ap, some, List, [], ◌∷◌, eqb, leb, All, Elem, inl, inr, ◌⊎◌, Bool-cases,
  arith, if◌then◌else◌,
}
use openstack_keystone.Portal.Billing.Fees.{
  Package, insert_package, sort_packages, package_for, last_package,
}

module _ {D : Type 0} where
  package_for-insert_package :
      (n : ℕ) (p : Package D) (l : List (Package D))
      → package_for n (insert_package p l) ≡ package_for n (p ∷ l)
  unfolding package_for insert_package
  package_for-insert_package n p [] = refl
  package_for-insert_package n p (q ∷ l) = ground (arith, package_for-insert_package n p l)

  -- The first package of a number stays the first.
  pub package_for-sort_packages :
      (n : ℕ) (l : List (Package D)) → package_for n (sort_packages l) ≡ package_for n l
  unfolding package_for sort_packages
  package_for-sort_packages n [] = refl
  package_for-sort_packages n (p ∷ l) =
      package_for-insert_package n p (sort_packages l)
      ∙ ap (λ rest. if eqb n p.0 then some p.1 else rest) (package_for-sort_packages n l)

  abbrev pub AtMost : ℕ → List (Package D) → Type 0
  AtMost n l = All (λ q. q.0 ≤ n) l

  abbrev AtLeast : ℕ → List (Package D) → Type 0
  AtLeast n l = All (λ q. n ≤ q.0) l

  -- From every place on, the numbers do not fall.
  abbrev pub Sorted : List (Package D) → Type 0
  Sorted [] = Unit
  Sorted (p ∷ l) = AtLeast p.0 l × Sorted l

  AtLeast-le : (n m : ℕ) (l : List (Package D)) → m ≤ n → AtLeast n l → AtLeast m l
  AtLeast-le n m [] h k = tt
  AtLeast-le n m (q ∷ l) h k = (omega arith, AtLeast-le n m l h k.1)

  AtLeast-insert_package :
      (n : ℕ) (p : Package D) (l : List (Package D))
      → n ≤ p.0
      → AtLeast n l
      → AtLeast n (insert_package p l)
  unfolding insert_package
  AtLeast-insert_package n p [] h k = (h, tt)
  AtLeast-insert_package n p (q ∷ l) h k = elim (Bool-cases (leb p.0 q.0)) [
    | inl e ↦ rw e (h, k)
    | inr e ↦ rw e (k.0, AtLeast-insert_package n p l h k.1)
  ]

  insert_package-Sorted :
      (p : Package D) (l : List (Package D)) → Sorted l → Sorted (insert_package p l)
  unfolding insert_package
  insert_package-Sorted p [] s = (tt, tt)
  insert_package-Sorted p (q ∷ l) s = elim (Bool-cases (leb p.0 q.0)) [
    | inl e ↦ let le : p.0 ≤ q.0 = ground arith in rw e ((le, AtLeast-le q.0 p.0 l le s.0), s)
    | inr e ↦
        rw e (AtLeast-insert_package q.0 p l (ground arith) s.0, insert_package-Sorted p l s.1)
  ]

  pub sort_packages-Sorted : (l : List (Package D)) → Sorted (sort_packages l)
  unfolding sort_packages
  sort_packages-Sorted [] = tt
  sort_packages-Sorted (p ∷ l) = insert_package-Sorted p (sort_packages l) (sort_packages-Sorted l)

  -- The last of a sorted list is the largest.
  pub last_package-AtMost :
      (p : Package D) (l : List (Package D)) → Sorted (p ∷ l) → AtMost (last_package p l).0 (p ∷ l)
  unfolding last_package
  last_package-AtMost p [] s = (omega arith, tt)
  last_package-AtMost p (q ∷ l) s = let rest = last_package-AtMost q l s.1 in (omega arith, rest)

  pub last_package-Elem : (p : Package D) (l : List (Package D)) → Elem (last_package p l) (p ∷ l)
  unfolding last_package
  last_package-Elem p [] = inl refl
  last_package-Elem p (q ∷ l) = inr (last_package-Elem q l)

  -- What holds of the sorted list holds of the list.
  All-insert_package :
      (P : Package D → Type 0) (p : Package D) (l : List (Package D))
      → All P (insert_package p l)
      → P p × All P l
  unfolding insert_package
  All-insert_package P p [] h = h
  All-insert_package P p (q ∷ l) h = elim (Bool-cases (leb p.0 q.0)) [
    | inl e ↦ rw e at h
    | inr e ↦ let k = rw e at h in let r = All-insert_package P p l k.1 in (r.0, (k.0, r.1))
  ]

  pub All-sort_packages :
      (P : Package D → Type 0) (l : List (Package D)) → All P (sort_packages l) → All P l
  unfolding sort_packages
  All-sort_packages P [] h = tt
  All-sort_packages P (p ∷ l) h =
      let r = All-insert_package P p (sort_packages l) h in (r.0, All-sort_packages P l r.1)

  Elem-insert_package :
      (x p : Package D) (l : List (Package D)) → Elem x (insert_package p l) → (x ≡ p) ⊎ Elem x l
  unfolding insert_package
  Elem-insert_package x p [] m = m
  Elem-insert_package x p (q ∷ l) m = elim (Bool-cases (leb p.0 q.0)) [
    | inl e ↦ rw e at m
    | inr e ↦ elim (rw e at m) [
      | inl same ↦ inr (inl same)
      | inr n ↦ elim (Elem-insert_package x p l n) [ inl same ↦ inl same | inr o ↦ inr (inr o) ]
    ]
  ]

  pub Elem-sort_packages :
      (x : Package D) (l : List (Package D)) → Elem x (sort_packages l) → Elem x l
  unfolding sort_packages
  Elem-sort_packages x [] m = m
  Elem-sort_packages x (p ∷ l) m = elim (Elem-insert_package x p (sort_packages l) m) [
    | inl e ↦ inl e
    | inr n ↦ inr (Elem-sort_packages x l n)
  ]

  pub insert_package-cons :
      (p : Package D) (l : List (Package D))
      → (q : Package D) × (rest : List (Package D)) × (insert_package p l ≡ q ∷ rest)
  unfolding insert_package
  insert_package-cons p [] = (p, [], refl)
  insert_package-cons p (q ∷ l) = elim (Bool-cases (leb p.0 q.0)) [
    | inl e ↦ (p, q ∷ l, rw e refl)
    | inr e ↦ (q, insert_package p l, rw e refl)
  ]
