-- ===== src/Exec/Keeps.antt =====
-- What an action keeps, whether it returns or raises: one rule for each way to build an action.
use openstack_keystone.Prelude.{
  ◌≡◌, refl, Bool, true, false, if◌then◌else◌, Option, none, some, List, [], ◌∷◌, All,
}
use openstack_keystone.Exec.{
  Error, Result, ok, err, Exec, pure, raise, lift, gets, ◌>>=◌, recover, catch, modify, for_each,
  if_found, map_each,
}

pub record Keeps {ℓ} {S A : Type ℓ} (P : S → Type ℓ) (m : Exec S A) : Type ℓ where
  pub at : (w : S) → P w → P (m w).1

module _ {ℓ} {S A : Type ℓ} {P : S → Type ℓ} where
  pub Keeps-pure : (a : A) → Keeps P (pure a)
  unfolding pure
  Keeps-pure a = record { at = λ w p. p }

  pub Keeps-raise : (e : Error) → Keeps P (raise {A = A} e)
  unfolding raise
  Keeps-raise e = record { at = λ w p. p }

  pub recover-Keeps :
      (r : Result A) (h : Error → Exec S A) (s : S)
      → ((e : Error) → Keeps P (h e))
      → P s
      → P (recover r h s).1
  recover-Keeps (ok a) h s kh p = p
  recover-Keeps (err e) h s kh p = (kh e).at s p

  pub Keeps-catch :
      (m : Exec S A) (h : Error → Exec S A)
      → Keeps P m
      → ((e : Error) → Keeps P (h e))
      → Keeps P (catch m h)
  unfolding catch
  Keeps-catch m h first kh = record {
    at = λ s p. let (r, s') = m s in recover-Keeps r h s' kh (first.at s p);
  }

  pub Keeps-gets : (f : S → A) → Keeps P (gets f)
  unfolding gets
  Keeps-gets f = record { at = λ w p. p }

  pub Keeps-lift : (r : Result A) → Keeps P (lift r)
  unfolding lift
  Keeps-lift r = record { at = λ w p. p }

  -- A branch may use its test.
  pub Keeps-if :
      (test : Bool) (act other : Exec S A)
      → (test ≡ true → Keeps P act)
      → (test ≡ false → Keeps P other)
      → Keeps P (if test then act else other)
  Keeps-if true act other on_true on_false = on_true refl
  Keeps-if false act other on_true on_false = on_false refl

pub Keeps-modify :
    {S : Type 0} {P : S → Type 0} (f : S → S) → ((s : S) → P s → P (f s)) → Keeps P (modify f)
unfolding modify
Keeps-modify f k = record { at = k }

module _ {ℓ} {S A B : Type ℓ} {P : S → Type ℓ} where
  -- The rest of the block may use what a pure computation returned.
  pub Keeps-bind-lift :
      (r : Result A) (g : A → Exec S B)
      → ((a : A) → r ≡ ok a → Keeps P (g a))
      → Keeps P (lift r >>= g)
  unfolding ◌>>=◌
  Keeps-bind-lift (ok a) g next = next a refl
  Keeps-bind-lift (err e) g next = Keeps-raise e

  pub Keeps-bind :
      (act : Exec S A) (rest : A → Exec S B)
      → Keeps P act
      → ((a : A) → Keeps P (rest a))
      → Keeps P (act >>= rest)
  unfolding ◌>>=◌
  Keeps-bind act rest first next = record {
    at =
        λ w p. let (r, w') = act w in (Keeps-bind-lift r rest (λ a _. next a)).at w' (first.at w p);
  }

  -- The same, where the rest needs a fact about the value that the first action returned.
  pub Keeps-bind_post :
      (Q : A → Type ℓ) (m : Exec S A) (f : A → Exec S B)
      → Keeps P m
      → ((s : S) (a : A) → (m s).0 ≡ ok a → Q a)
      → ((a : A) → Q a → Keeps P (f a))
      → Keeps P (m >>= f)
  unfolding ◌>>=◌
  Keeps-bind_post Q m f first q next = record {
    at = λ s h.
        let (r, s') = m s in (Keeps-bind-lift r f (λ a e. next a (q s a e))).at s' (first.at s h);
  }

module _ {S A : Type 0} {P : S → Type 0} where
  pub Keeps-if_found :
      (o : Option A) (f : A → Exec S Unit)
      → ((x : A) → o ≡ some x → Keeps P (f x))
      → Keeps P (if_found o f)
  unfolding if_found
  Keeps-if_found none f k = Keeps-pure tt
  Keeps-if_found (some x) f k = k x refl

  pub Keeps-for_each :
      (xs : List A) (f : A → Exec S Unit) → ((x : A) → Keeps P (f x)) → Keeps P (for_each xs f)
  unfolding for_each
  Keeps-for_each [] f k = Keeps-pure tt
  Keeps-for_each (x ∷ xs) f k =
      Keeps-bind (f x) (λ _. for_each xs f) (k x) (λ _. Keeps-for_each xs f k)

  -- Only the elements of the list are needed.
  pub Keeps-for_each-All :
      (Q : A → Type 0) (xs : List A) (f : A → Exec S Unit)
      → ((x : A) → Q x → Keeps P (f x))
      → All Q xs
      → Keeps P (for_each xs f)
  unfolding for_each
  Keeps-for_each-All Q [] f k h = Keeps-pure tt
  Keeps-for_each-All Q (x ∷ xs) f k h =
      Keeps-bind (f x) (λ _. for_each xs f) (k x h.0) (λ _. Keeps-for_each-All Q xs f k h.1)

  pub Keeps-map_each :
      {B : Type 0} (xs : List A) (f : A → Exec S B)
      → ((x : A) → Keeps P (f x))
      → Keeps P (map_each xs f)
  unfolding map_each
  Keeps-map_each [] f k = Keeps-pure []
  Keeps-map_each (x ∷ xs) f k =
      Keeps-bind (f x) _ (k x)
        (λ y. Keeps-bind (map_each xs f) _ (Keeps-map_each xs f k) (λ ys. Keeps-pure (y ∷ ys)))

pub ruleset keeps_rules = (
  Keeps-pure, Keeps-raise, Keeps-lift, Keeps-gets, Keeps-if, Keeps-catch, Keeps-modify, Keeps-bind,
  Keeps-if_found, Keeps-for_each, Keeps-map_each,
)
