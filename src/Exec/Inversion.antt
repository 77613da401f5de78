-- ===== src/Exec/Inversion.antt =====
-- What a successful action did: inversion of bind, and of the ways to catch an error.
use openstack_keystone.Prelude.{◌≡◌, refl, ap, ◌⊎◌, inl, inr, List, [], ◌∷◌, ◌++◌}
use openstack_keystone.Exec.Quiet.{IsOk}
use openstack_keystone.Exec.{Error, Result, ok, err, Exec, continue, ◌>>=◌, pure, for_each}

pub ok-eq : {A : Type 0} {a b : A} → ok a ≡ ok b → a ≡ b
ok-eq h = cc

pub Result-cases :
    {A : Type 0} (r : Result A) → ((a : A) × (r ≡ ok a)) ⊎ ((e : Error) × (r ≡ err e))
Result-cases (ok a) = inl (a, refl)
Result-cases (err e) = inr (e, refl)

module _ {ℓ} {S A B : Type ℓ} where
  continue-eq-ok :
      (r : Result A) (f : A → Exec S B) (s : S) (b : B)
      → (continue r f s).0 ≡ ok b
      → (a : A) × (r ≡ ok a) × (continue r f s ≡ f a s)
  continue-eq-ok (ok a) f s b h = (a, refl, refl)
  continue-eq-ok (err e) f s b h = cc

  -- A bind that succeeds has a first part that succeeds, and then runs as its second part.
  pub >>=-eq-ok :
      (m : Exec S A) (f : A → Exec S B) (s : S) (b : B)
      → ((m >>= f) s).0 ≡ ok b
      → (a : A) × ((m s).0 ≡ ok a) × ((m >>= f) s ≡ f a (m s).1)
  unfolding ◌>>=◌
  >>=-eq-ok m f s b h = continue-eq-ok (m s).0 f (m s).1 b h

  continue-IsOk :
      (r : Result A) (f : A → Exec S B) (s : S)
      → IsOk (continue r f s).0
      → (a : A) × (r ≡ ok a) × (continue r f s ≡ f a s)
  continue-IsOk (ok a) f s h = (a, refl, refl)
  continue-IsOk (err e) f s h = absurd h

  pub >>=-IsOk :
      (m : Exec S A) (f : A → Exec S B) (s : S)
      → IsOk ((m >>= f) s).0
      → (a : A) × ((m s).0 ≡ ok a) × ((m >>= f) s ≡ f a (m s).1)
  unfolding ◌>>=◌
  >>=-IsOk m f s h = continue-IsOk (m s).0 f (m s).1 h

  -- After a first part that returned `a`, a bind runs as its second part.
  pub >>=_after :
      (m : Exec S A) (f : A → Exec S B) (s : S) (a : A) → (m s).0 ≡ ok a → (m >>= f) s ≡ f a (m s).1
  unfolding ◌>>=◌
  >>=_after m f s a h = rw h

-- A loop that succeeds has a first round that succeeds, and goes on from where that ended.
pub for_each-IsOk :
    {S A : Type 0} (x : A) (xs : List A) (f : A → Exec S Unit) (s : S)
    → IsOk (for_each (x ∷ xs) f s).0
    → IsOk (f x s).0 × (for_each (x ∷ xs) f s ≡ for_each xs f (f x s).1)
unfolding for_each
for_each-IsOk x xs f s h =
    let (u, e, after) = >>=-IsOk (f x) (λ _. for_each xs f) s h in (rw e tt, after)

-- A loop that succeeds ends with a last round that succeeds.
pub for_each_last :
    {S A : Type 0} (xs : List A) (y : A) (f : A → Exec S Unit) (s : S)
    → IsOk (for_each (xs ++ y ∷ []) f s).0
    → (t : S) × IsOk (f y t).0 × ((for_each (xs ++ y ∷ []) f s).1 ≡ (f y t).1)
for_each_last [] y f s h =
    let (first, after) = for_each-IsOk y [] f s h in
    (s, first, unfold for_each pure in ap (λ p. p.1) after)
for_each_last (x ∷ xs) y f s h =
    let (first, after) = for_each-IsOk x (xs ++ y ∷ []) f s h in
    let (t, last, same) = for_each_last xs y f (f x s).1 (rw after at h) in (t, last, rw after same)
