-- ===== src/Exec.antt =====
-- Python code that changes state and may raise, as functions of the state. What was written before
-- a raise stays written, so the state comes back beside the error too. `Error` has the exceptions
-- that the code tells apart: kopf.PermanentError and kopf.TemporaryError, the Kubernetes
-- ApiException with its HTTP status, and every other exception with its text.
pub mod Keeps
pub mod Quiet
pub mod Inversion
pub mod Holds
use openstack_keystone.Prelude.{ℕ, String, Option, none, some, List, [], ◌∷◌}

pub data Error : Type 0 where
  permanent : String → Error
  temporary : String → Error
  api_exception : ℕ → String → Error
  exception : String → Error

pub data Result {ℓ} (A : Type ℓ) : Type ℓ where
  ok : A → Result A
  err : Error → Result A

abbrev pub Exec {ℓ} : Type ℓ → Type ℓ → Type ℓ
Exec S A = S → Result A × S

module _ {ℓ} {S A : Type ℓ} where
  unfoldable pub pure : A → Exec S A
  pure a s = (ok a, s)

  unfoldable pub raise : Error → Exec S A
  raise e s = (err e, s)

  -- A computation that may raise and does not touch the state.
  unfoldable pub lift : Result A → Exec S A
  lift r s = (r, s)

  unfoldable pub gets : (S → A) → Exec S A
  gets f s = (ok (f s), s)

  abbrev pub recover : Result A → (Error → Exec S A) → Exec S A
  recover (ok a) h s = (ok a, s)
  recover (err e) h s = h e s

  -- `try: m` with `except Exception as e: h`
  unfoldable pub catch : Exec S A → (Error → Exec S A) → Exec S A
  catch m h s = let (r, s') = m s in recover r h s'

unfoldable pub modify : {S : Type 0} → (S → S) → Exec S Unit
modify f s = (ok tt, f s)

module _ {ℓ} {S A B : Type ℓ} where
  abbrev pub continue : Result A → (A → Exec S B) → Exec S B
  continue (ok a) f s = f a s
  continue (err e) f s = (err e, s)

  infixl 10 ◌>>=◌ ◌>>◌
  -- Opening this opens the actions above too.
  unfoldable pub ◌>>=◌ : Exec S A → (A → Exec S B) → Exec S B
  unfolding pure raise lift gets modify catch
  ◌>>=◌ m f s = let (r, s') = m s in continue r f s'

  abbrev pub ◌>>◌ : Exec S A → Exec S B → Exec S B
  m >> n = m >>= λ _. n

module _ {S A : Type 0} where
  -- `for x in xs: f(x)`
  unfoldable pub for_each : List A → (A → Exec S Unit) → Exec S Unit
  unfolding ◌>>=◌
  for_each [] f = pure tt
  for_each (x ∷ xs) f = f x >> for_each xs f

  -- `[f(x) for x in xs]`, where `f` may raise
  unfoldable pub map_each : {B : Type 0} → List A → (A → Exec S B) → Exec S (List B)
  unfolding ◌>>=◌
  map_each [] f = pure []
  map_each (x ∷ xs) f = f x >>= λ y. map_each xs f >>= λ ys. pure (y ∷ ys)

  -- `if x: f(x)`, for a value that may be missing
  unfoldable pub if_found : Option A → (A → Exec S Unit) → Exec S Unit
  unfolding ◌>>=◌
  if_found none f = pure tt
  if_found (some a) f = f a
