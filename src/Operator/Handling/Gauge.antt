-- ===== src/Operator/Handling/Gauge.antt =====
-- The gauge of runs in progress: which parts of a handler leave it alone.
use openstack_keystone.Prelude.{
  ℕ, suc, ◌≡◌, refl, ap, ◌∙◌, String, Bool, true, false, if◌then◌else◌,
}
use openstack_keystone.Exec.Quiet.{IsOk, Quiet}
use openstack_keystone.Exec.{
  Error, permanent, temporary, api_exception, exception, Result, ok, err, Exec, continue, modify,
  ◌>>=◌,
}
use openstack_keystone.Exec.Keeps.{
  Keeps, Keeps-modify, Keeps-raise, Keeps-bind, Keeps-catch, keeps_rules,
}
use openstack_keystone.Operator.Handling.{
  Handling, on_cloud, set_patch, set_patch_at, emit, decrement, finally, fail,
  fail_unless_permanent,
}

-- The gauge was changed this often.
pub record InGauge {W P : Type 0} (entered left : ℕ) (s : Handling W P) : Type 0 where
  pub same_entered : s.entered ≡ entered
  pub same_left : s.left ≡ left

module _ {W P : Type 0} (entered left : ℕ) where
  pub on_cloud-InGauge :
      {A : Type 0} (m : Exec W A) → Keeps (InGauge {P = P} entered left) (on_cloud m)
  unfolding on_cloud
  on_cloud-InGauge m = record {
    at = λ s g. record { same_entered = g.same_entered; same_left = g.same_left };
  }

  pub set_patch-InGauge : (f : P → P) → Keeps (InGauge {W = W} entered left) (modify (set_patch f))
  unfolding set_patch modify
  set_patch-InGauge f = record {
    at = λ s g. record { same_entered = g.same_entered; same_left = g.same_left };
  }

  pub set_patch_at-InGauge :
      (now : W → String) (f : String → P → P)
      → Keeps (InGauge entered left) (modify (set_patch_at now f))
  unfolding set_patch_at modify
  set_patch_at-InGauge now f = record {
    at = λ s g. record { same_entered = g.same_entered; same_left = g.same_left };
  }

  pub emit-InGauge :
      (reason : String) → Keeps (InGauge {W = W} {P = P} entered left) (modify (emit reason))
  unfolding emit modify
  emit-InGauge reason = record {
    at = λ s g. record { same_entered = g.same_entered; same_left = g.same_left };
  }

  pub fail-InGauge :
      (note : String → Exec (Handling W P) Unit) (reason message : String) (e : Error)
      → ((m : String) → Keeps (InGauge entered left) (note m))
      → Keeps (InGauge entered left) (fail note reason message e)
  unfolding fail
  fail-InGauge note reason message e k =
      Keeps-bind _ _ (k _) (λ _. Keeps-bind _ _ (emit-InGauge reason) (λ _. Keeps-raise _))

  pub fail_unless_permanent-InGauge :
      (note : String → Exec (Handling W P) Unit) (reason message : String) (e : Error)
      → ((m : String) → Keeps (InGauge entered left) (note m))
      → Keeps (InGauge entered left) (fail_unless_permanent note reason message e)
  unfolding fail_unless_permanent
  fail_unless_permanent-InGauge note reason message (permanent m) k = Keeps-raise (permanent m)
  fail_unless_permanent-InGauge note reason message (temporary m) k =
      fail-InGauge note reason message (temporary m) k
  fail_unless_permanent-InGauge note reason message (api_exception status m) k =
      fail-InGauge note reason message (api_exception status m) k
  fail_unless_permanent-InGauge note reason message (exception m) k =
      fail-InGauge note reason message (exception m) k

-- Whether it returns or raises, the action counts one run out and none in.
pub record Leaves {W P A : Type 0} (m : Exec (Handling W P) A) : Type 0 where
  pub at : (s : Handling W P) → ((m s).1.entered ≡ s.entered) × ((m s).1.left ≡ suc s.left)

module _ {W P : Type 0} where
  abbrev pub Steady : {A : Type 0} → Exec (Handling W P) A → Type 0
  Steady m = (entered left : ℕ) → Keeps (InGauge entered left) m

  pub decrement-Leaves : Leaves {W = W} {P = P} (modify decrement)
  unfolding modify decrement
  decrement-Leaves = record { at = λ s. (refl, refl) }

  pub finally-Leaves :
      {A : Type 0} (m : Exec (Handling W P) A) → Steady m → Leaves (finally m decrement)
  unfolding finally decrement
  finally-Leaves m k = record {
    at = λ s.
        let g = (k s.entered s.left).at s (record { same_entered = refl; same_left = refl }) in
        (g.same_entered, ap suc g.same_left);
  }

  pub Leaves-if :
      {A : Type 0} (test : Bool) (m n : Exec (Handling W P) A)
      → Leaves m
      → Leaves n
      → Leaves (if test then m else n)
  Leaves-if true m n k l = k
  Leaves-if false m n k l = l

  continue-Leaves :
      {A B : Type 0} (r : Result A) (f : A → Exec (Handling W P) B) (s t : Handling W P)
      → ((x : A) → Steady (f x))
      → (t.entered ≡ s.entered) × (t.left ≡ suc s.left)
      → ((continue r f t).1.entered ≡ s.entered) × ((continue r f t).1.left ≡ suc s.left)
  continue-Leaves (ok x) f s t k (e, l) =
      let g = (k x s.entered (suc s.left)).at t (record { same_entered = e; same_left = l }) in
      (g.same_entered, g.same_left)
  continue-Leaves (err e) f s t k g = g

  -- The first part counts the run out.
  pub Leaves-first :
      {A B : Type 0} (m : Exec (Handling W P) A) (f : A → Exec (Handling W P) B)
      → Leaves m
      → ((x : A) → Steady (f x))
      → Leaves (m >>= f)
  unfolding ◌>>=◌
  Leaves-first m f k l = record { at = λ s. continue-Leaves (m s).0 f s (m s).1 l (k.at s) }

  run_on :
      {A B : Type 0} (r : Result A) (f : A → Exec (Handling W P) B) (s t : Handling W P)
      → IsOk r
      → ((x : A) → Leaves (f x))
      → (t.entered ≡ s.entered) × (t.left ≡ s.left)
      → ((continue r f t).1.entered ≡ s.entered) × ((continue r f t).1.left ≡ suc s.left)
  run_on (ok x) f s t h k (e, l) = (((k x).at t).0 ∙ e, ((k x).at t).1 ∙ ap suc l)
  run_on (err e) f s t h k g = absurd h

  -- The second part counts the run out, after a first part that never raises.
  pub Leaves-second :
      {A B : Type 0} (m : Exec (Handling W P) A) (f : A → Exec (Handling W P) B)
      → Quiet m
      → Steady m
      → ((x : A) → Leaves (f x))
      → Leaves (m >>= f)
  unfolding ◌>>=◌
  Leaves-second m f q k l = record {
    at = λ s.
        let g = (k s.entered s.left).at s (record { same_entered = refl; same_left = refl }) in
        run_on (m s).0 f s (m s).1 (q.at s) l (g.same_entered, g.same_left);
  }

  pub on_cloud-Quiet : {A : Type 0} (m : Exec W A) → Quiet m → Quiet (on_cloud {W = W} {P = P} m)
  unfolding on_cloud
  on_cloud-Quiet m q = record { at = λ s. q.at s.cloud }

pub ruleset gauge_rules =
    (keeps_rules, on_cloud-InGauge, set_patch-InGauge, set_patch_at-InGauge, emit-InGauge)
