-- ===== src/Exec/Quiet.antt =====
-- Actions that never raise, in any state.
use openstack_keystone.Prelude.{
  ◌≡◌, refl, Bool, true, false, if◌then◌else◌, Option, none, some, List, [], ◌∷◌, All,
}
use openstack_keystone.Exec.{
  Error, Result, ok, err, Exec, pure, gets, ◌>>=◌, recover, catch, modify, continue, for_each,
  if_found,
}

abbrev pub IsOk {ℓ} : {A : Type ℓ} → Result A → Type 0
IsOk (ok a) = Unit
IsOk (err e) = ⊥

pub record Quiet {ℓ} {S A : Type ℓ} (m : Exec S A) : Type ℓ where
  pub at : (s : S) → IsOk (m s).0

module _ {ℓ} {S A : Type ℓ} where
  pub Quiet-pure : (a : A) → Quiet {S = S} (pure a)
  unfolding pure
  Quiet-pure a = record { at = λ s. tt }

  pub Quiet-gets : (f : S → A) → Quiet (gets f)
  unfolding gets
  Quiet-gets f = record { at = λ s. tt }

  pub Quiet-if :
      (b : Bool) (m n : Exec S A)
      → (b ≡ true → Quiet m)
      → (b ≡ false → Quiet n)
      → Quiet (if b then m else n)
  Quiet-if true m n km kn = km refl
  Quiet-if false m n km kn = kn refl

  recover-Quiet :
      (r : Result A) (h : Error → Exec S A) (s : S)
      → ((e : Error) → Quiet (h e))
      → IsOk (recover r h s).0
  recover-Quiet (ok a) h s kh = tt
  recover-Quiet (err e) h s kh = (kh e).at s

  -- A handler that never raises makes the whole statement one.
  pub Quiet-catch :
      (m : Exec S A) (h : Error → Exec S A) → ((e : Error) → Quiet (h e)) → Quiet (catch m h)
  unfolding catch
  Quiet-catch m h kh = record { at = λ s. let (r, s') = m s in recover-Quiet r h s' kh }

pub Quiet-modify : {S : Type 0} (f : S → S) → Quiet (modify f)
unfolding modify
Quiet-modify f = record { at = λ s. tt }

module _ {ℓ} {S A B : Type ℓ} where
  continue-Quiet :
      (r : Result A) (f : A → Exec S B) (s : S)
      → IsOk r
      → ((a : A) → Quiet (f a))
      → IsOk (continue r f s).0
  continue-Quiet (ok a) f s h kf = (kf a).at s
  continue-Quiet (err e) f s h kf = absurd h

  pub Quiet-bind :
      (m : Exec S A) (f : A → Exec S B) → Quiet m → ((a : A) → Quiet (f a)) → Quiet (m >>= f)
  unfolding ◌>>=◌
  Quiet-bind m f km kf = record {
    at = λ s. let (r, s') = m s in continue-Quiet r f s' (km.at s) kf;
  }

  continue-Quiet_post :
      (Q : A → Type ℓ) (r : Result A) (f : A → Exec S B) (s : S)
      → IsOk r
      → ((a : A) → r ≡ ok a → Q a)
      → ((a : A) → Q a → Quiet (f a))
      → IsOk (continue r f s).0
  continue-Quiet_post Q (ok a) f s h q kf = (kf a (q a refl)).at s
  continue-Quiet_post Q (err e) f s h q kf = absurd h

  -- The same, where the rest needs a fact about the value that the first action returned.
  pub Quiet-bind_post :
      (Q : A → Type ℓ) (m : Exec S A) (f : A → Exec S B)
      → Quiet m
      → ((s : S) (a : A) → (m s).0 ≡ ok a → Q a)
      → ((a : A) → Q a → Quiet (f a))
      → Quiet (m >>= f)
  unfolding ◌>>=◌
  Quiet-bind_post Q m f km q kf = record {
    at = λ s. let (r, s') = m s in continue-Quiet_post Q r f s' (km.at s) (q s) kf;
  }

module _ {S A : Type 0} where
  pub Quiet-if_found :
      (o : Option A) (f : A → Exec S Unit) → ((x : A) → Quiet (f x)) → Quiet (if_found o f)
  unfolding if_found
  Quiet-if_found none f k = Quiet-pure tt
  Quiet-if_found (some x) f k = k x

  pub Quiet-for_each :
      (xs : List A) (f : A → Exec S Unit) → ((x : A) → Quiet (f x)) → Quiet (for_each xs f)
  unfolding for_each
  Quiet-for_each [] f k = Quiet-pure tt
  Quiet-for_each (x ∷ xs) f k =
      Quiet-bind (f x) (λ _. for_each xs f) (k x) (λ _. Quiet-for_each xs f k)

  -- Only the elements of the list are needed.
  pub Quiet-for_each-All :
      (Q : A → Type 0) (xs : List A) (f : A → Exec S Unit)
      → ((x : A) → Q x → Quiet (f x))
      → All Q xs
      → Quiet (for_each xs f)
  unfolding for_each
  Quiet-for_each-All Q [] f k h = Quiet-pure tt
  Quiet-for_each-All Q (x ∷ xs) f k h =
      Quiet-bind (f x) (λ _. for_each xs f) (k x h.0) (λ _. Quiet-for_each-All Q xs f k h.1)

pub ruleset quiet_rules = (
  Quiet-pure, Quiet-gets, Quiet-if, Quiet-catch, Quiet-modify, Quiet-bind, Quiet-if_found,
  Quiet-for_each,
)
