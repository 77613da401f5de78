-- ===== src/Exec/Holds.antt =====
-- What an action returns, where it returns: one rule for each way to build a result or an action.
use openstack_keystone.Prelude.{◌≡◌, refl, Bool, true, false, if◌then◌else◌}
use openstack_keystone.Exec.{
  Error, Result, ok, err, Exec, pure, raise, lift, continue, ◌>>=◌, catch, recover,
}
use openstack_keystone.Exec.Inversion.{ok-eq}

-- What a result that is no error satisfies.
pub record Holds {A : Type 0} (P : A → Type 0) (r : Result A) : Type 0 where
  pub at : (a : A) → r ≡ ok a → P a

module _ {A : Type 0} (P : A → Type 0) where
  pub Holds-ok : (a : A) → P a → Holds P (ok a)
  Holds-ok a h = record { at = λ b e. let same : a ≡ b = ok-eq e in rw (← same) h }

  pub Holds-err : (e : Error) → Holds P (err e)
  Holds-err e = record { at = λ b h. absurd (raised b h) }
    where
      raised : (b : A) → err e ≡ ok b → ⊥
      raised b h = cc

  pub Holds-if : (b : Bool) (x y : Result A) → Holds P x → Holds P y → Holds P (if b then x else y)
  Holds-if true x y h k = h
  Holds-if false x y h k = k

pub Holds-elim :
    {A B : Type 0} (P : A → Type 0) (Q : B → Type 0) (r : Result A) (f : A → Result B)
    → Holds P r
    → ((a : A) → P a → Holds Q (f a))
    → Holds Q (elim r [ err e ↦ err e | ok a ↦ f a ])
Holds-elim P Q (ok a) f h k = k a (h.at a refl)
Holds-elim P Q (err e) f h k = Holds-err Q e

module _ {W A : Type 0} (P : A → Type 0) where
  pub record Returns (m : Exec W A) : Type 0 where
    pub at : (w : W) → Holds P (m w).0

  pub Returns-pure : (a : A) → P a → Returns (pure a)
  unfolding pure
  Returns-pure a h = record { at = λ w. Holds-ok P a h }

  pub Returns-lift : (r : Result A) → Holds P r → Returns (lift r)
  unfolding lift
  Returns-lift r h = record { at = λ w. h }

  pub Returns-raise : (e : Error) → Returns (raise e)
  unfolding raise
  Returns-raise e = record { at = λ w. Holds-err P e }

  pub Returns-if :
      (b : Bool) (m n : Exec W A) → Returns m → Returns n → Returns (if b then m else n)
  Returns-if true m n h k = h
  Returns-if false m n h k = k

  pub Returns-any :
      {B : Type 0} (m : Exec W B) (f : B → Exec W A) → ((b : B) → Returns (f b)) → Returns (m >>= f)
  unfolding ◌>>=◌
  Returns-any m f k = record { at = λ w. go (m w).0 (m w).1 }
    where
      go : (r : Result _) (w : W) → Holds P (continue r f w).0
      go (ok b) w = (k b).at w
      go (err e) w = Holds-err P e

  pub Returns-bind :
      (m : Exec W A) (f : A → Exec W A)
      → Returns m
      → ((a : A) → P a → Returns (f a))
      → Returns (m >>= f)
  unfolding ◌>>=◌
  Returns-bind m f h k = record { at = λ w. go (m w).0 (m w).1 (h.at w) }
    where
      go : (r : Result A) (w : W) → Holds P r → Holds P (continue r f w).0
      go (ok a) w h = (k a (h.at a refl)).at w
      go (err e) w h = Holds-err P e

  pub Returns-catch :
      (m : Exec W A) (handle : Error → Exec W A)
      → Returns m
      → ((e : Error) → Returns (handle e))
      → Returns (catch m handle)
  unfolding catch
  Returns-catch m handle h k = record { at = λ w. go (m w).0 (m w).1 (h.at w) }
    where
      go : (r : Result A) (w : W) → Holds P r → Holds P (recover r handle w).0
      go (ok a) w h = h
      go (err e) w h = (k e).at w
