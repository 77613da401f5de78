-- ===== src/Prelude/Filter.antt =====
-- The laws of `filter`.
use Prim.Native.Nat.{◌≤◌}
use mathlib.Core.Path.{◌≡◌, refl, ap}
use mathlib.Core.Logic.{inl, inr}
use mathlib.Core.Bool.{Bool, not}
use mathlib.Core.List.{List, [], ◌∷◌, ◌++◌}
use native.Mathlib.Omega.{arith}
use openstack_keystone.Prelude.Tests.{Bool-cases}
use openstack_keystone.Prelude.Lists.{filter, length}

module _ {ℓ} {A : Type ℓ} where
  pub filter-append :
      (p : A → Bool) (xs ys : List A) → filter p (xs ++ ys) ≡ filter p xs ++ filter p ys
  filter-append p [] ys = refl
  filter-append p (x ∷ xs) ys = elim (Bool-cases (p x)) [
    | inl yes_p ↦ rw yes_p (ap (λ l. x ∷ l) (filter-append p xs ys))
    | inr no_p ↦ rw no_p (filter-append p xs ys)
  ]

  pub filter-filter : (p : A → Bool) (xs : List A) → filter p (filter p xs) ≡ filter p xs
  filter-filter p [] = refl
  filter-filter p (x ∷ xs) = elim (Bool-cases (p x)) [
    | inl yes_p ↦ rw yes_p (rw yes_p (ap (λ l. x ∷ l) (filter-filter p xs)))
    | inr no_p ↦ rw no_p (filter-filter p xs)
  ]

  -- Nothing passes a test and its negation.
  pub filter-filter-not : (p : A → Bool) (xs : List A) → filter p (filter (λ x. not (p x)) xs) ≡ []
  filter-filter-not p [] = refl
  filter-filter-not p (x ∷ xs) = elim (Bool-cases (p x)) [
    | inl yes_p ↦ rw yes_p (filter-filter-not p xs)
    | inr no_p ↦ rw no_p (rw no_p (filter-filter-not p xs))
  ]

  pub length-filter-le : (p : A → Bool) (xs : List A) → length (filter p xs) ≤ length xs
  length-filter-le p [] = omega arith
  length-filter-le p (x ∷ xs) = elim (Bool-cases (p x)) [
    | inl yes_p ↦ rw yes_p (omega (arith, length-filter-le p xs))
    | inr no_p ↦ rw no_p (omega (arith, length-filter-le p xs))
  ]

  -- A filter that drops nothing returns the list.
  pub filter_all :
      (p : A → Bool) (xs : List A) → length (filter p xs) ≡ length xs → filter p xs ≡ xs
  filter_all p [] = λ h. refl
  filter_all p (x ∷ xs) = elim (Bool-cases (p x)) [
    | inl yes_p ↦ rw yes_p (λ h. ap (λ l. x ∷ l) (filter_all p xs (omega arith)))
    | inr no_p ↦ rw no_p (λ h. absurd (omega (arith, length-filter-le p xs)))
  ]
