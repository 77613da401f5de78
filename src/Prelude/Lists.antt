-- ===== src/Prelude/Lists.antt =====
-- Lists and options: what the components share.
use Prim.Native.Nat.{ℕ, suc}
use mathlib.Core.Path.{◌≡◌, refl, sym, ap, ◌∙◌}
use mathlib.Core.Logic.{◌⊎◌, inl, inr}
use mathlib.Core.Bool.{Bool, true, false, ◌||◌, false≢true}
use mathlib.Core.Option.{Option, none, some}
use mathlib.Core.List.{List, [], ◌∷◌, ◌++◌}
use text.Mathlib.Text.{◌==◌}
use Prim.Native.String.{String}
use openstack_keystone.Prelude.Tests.{if◌then◌else◌, Bool-cases}

module _ {ℓ} {A : Type ℓ} where
  abbrev pub length : List A → ℕ
  length [] = 0
  length (x ∷ xs) = suc (length xs)

  -- The elements that pass a Boolean test, in order.
  abbrev pub filter : (A → Bool) → List A → List A
  filter p [] = []
  filter p (x ∷ xs) = let rest = filter p xs in if p x then x ∷ rest else rest

  abbrev pub any : (A → Bool) → List A → Bool
  any p [] = false
  any p (x ∷ xs) = p x || any p xs

  abbrev pub find : (A → Bool) → List A → Option A
  find p [] = none
  find p (x ∷ xs) = if p x then some x else find p xs

  -- Every element satisfies a predicate.
  abbrev pub All {κ} : (A → Type κ) → List A → Type κ
  All P [] = Unit
  All P (x ∷ xs) = P x × All P xs

  pub All-append {κ} : (P : A → Type κ) (xs ys : List A) → All P xs → All P ys → All P (xs ++ ys)
  All-append P [] ys hx hy = hy
  All-append P (x ∷ xs) ys hx hy = (hx.0, All-append P xs ys hx.1 hy)

-- The value of an option that is present.
abbrev pub or_else {ℓ} : {A : Type ℓ} → Option A → A → A
or_else none d = d
or_else (some a) d = a

abbrev pub is_some {ℓ} : {A : Type ℓ} → Option A → Bool
is_some none = false
is_some (some a) = true

-- Membership of a text in a list of texts: `x in xs`.
abbrev pub contains : String → List String → Bool
contains x [] = false
contains x (y ∷ ys) = (y == x) || contains x ys

module _ {A : Type 0} where
  -- `x` stands in the list, with its place.
  abbrev pub Elem : A → List A → Type 0
  Elem x [] = ⊥
  Elem x (y ∷ ys) = (x ≡ y) ⊎ Elem x ys

  pub Elem-filter :
      (p : A → Bool) {x : A} (xs : List A) → Elem x xs → p x ≡ true → Elem x (filter p xs)
  Elem-filter p [] m h = absurd m
  Elem-filter p {x} (y ∷ ys) m h = elim (Bool-cases (p y)) [
    | inl kept ↦ rw kept (elim m [ inl e ↦ inl e | inr n ↦ inr (Elem-filter p ys n h) ])
    | inr dropped ↦ rw dropped (elim m [
      | inl e ↦ absurd (false≢true (sym dropped ∙ ap p (sym e) ∙ h))
      | inr n ↦ Elem-filter p ys n h
    ])
  ]

  -- What passes a filter stood in the list and satisfies the test.
  pub Elem-of_filter :
      (p : A → Bool) {x : A} (xs : List A) → Elem x (filter p xs) → Elem x xs × (p x ≡ true)
  Elem-of_filter p [] m = absurd m
  Elem-of_filter p {x} (y ∷ ys) m = elim (Bool-cases (p y)) [
    | inl kept ↦ elim (rw kept at m) [
      | inl e ↦ (inl e, ap p e ∙ kept)
      | inr n ↦ let r = Elem-of_filter p ys n in (inr r.0, r.1)
    ]
    | inr dropped ↦ let r = Elem-of_filter p ys (rw dropped at m) in (inr r.0, r.1)
  ]

  pub All-of_Elem {κ} : (P : A → Type κ) (xs : List A) → ((x : A) → Elem x xs → P x) → All P xs
  All-of_Elem P [] h = tt
  All-of_Elem P (y ∷ ys) h = (h y (inl refl), All-of_Elem P ys (λ x m. h x (inr m)))

  pub All-Elem {κ} : (P : A → Type κ) {x : A} (xs : List A) → All P xs → Elem x xs → P x
  All-Elem P [] h m = absurd m
  All-Elem P (y ∷ ys) h (inl e) = rw e h.0
  All-Elem P (y ∷ ys) h (inr m) = All-Elem P ys h.1 m
