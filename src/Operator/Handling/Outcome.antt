-- ===== src/Operator/Handling/Outcome.antt =====
-- The phase that a handler leaves in the patch: `Ready` where it returns, `Error` where it asks for a
-- retry.
use openstack_keystone.Prelude.{
  String, ◌≡◌, refl, Bool, true, false, Option, some, take, if◌then◌else◌,
}
use openstack_keystone.Exec.{
  Error, permanent, temporary, api_exception, exception, Result, ok, err, Exec, raise, modify,
  ◌>>=◌, catch, recover, continue,
}
use openstack_keystone.Operator.Handling.{
  Handling, error_text, finally, decrement, emit, fail, fail_unless_permanent,
}

-- What the result says of the phase: a run that returns leaves Ready, one that asks for a retry leaves
-- Error, a permanent error says nothing, and no other exception comes out.
pub Settled : {A : Type 0} → Result A → Option String → Type 0
Settled (ok a) phase = phase ≡ some "Ready"
Settled (err (permanent m)) phase = Unit
Settled (err (temporary m)) phase = phase ≡ some "Error"
Settled (err (api_exception status m)) phase = ⊥
Settled (err (exception m)) phase = ⊥

module _ {W P : Type 0} (phase : P → Option String) where
  -- Where it returns, the phase is Ready.
  pub record Readies {A : Type 0} (m : Exec (Handling W P) A) : Type 0 where
    pub at : (s : Handling W P) (a : A) → (m s).0 ≡ ok a → phase (m s).1.patch ≡ some "Ready"

  -- It returns, and the phase is Error.
  pub record Notes (note : String → Exec (Handling W P) Unit) : Type 0 where
    pub returns : (m : String) (s : Handling W P) → (note m s).0 ≡ ok tt
    pub notes : (m : String) (s : Handling W P) → phase (note m s).1.patch ≡ some "Error"

  then_ready :
      {A B : Type 0} (r : Result A) (f : A → Exec (Handling W P) B) (t : Handling W P) (b : B)
      → ((a : A) → Readies (f a))
      → (continue r f t).0 ≡ ok b
      → phase (continue r f t).1.patch ≡ some "Ready"
  then_ready (ok a) f t b k e = (k a).at t b e
  then_ready (err x) f t b k e = cc

  -- The last part decides.
  pub Readies-bind :
      {A B : Type 0} (m : Exec (Handling W P) A) (f : A → Exec (Handling W P) B)
      → ((a : A) → Readies (f a))
      → Readies (m >>= f)
  unfolding ◌>>=◌
  Readies-bind m f k = record { at = λ s b e. then_ready (m s).0 f (m s).1 b k e }

  pub Readies-if :
      {A : Type 0} (test : Bool) (m n : Exec (Handling W P) A)
      → Readies m
      → Readies n
      → Readies (if test then m else n)
  Readies-if true m n k l = k
  Readies-if false m n k l = l

  fail_lem :
      (note : String → Exec (Handling W P) Unit) (reason message : String) (e : Error)
      (s : Handling W P)
      → Notes note
      → let end = fail note reason message e s in Settled end.0 (phase end.1.patch)
  unfolding Settled fail emit modify raise ◌>>=◌
  fail_lem note reason message e s k =
      rw (k.returns (take 200 (error_text e)) s) (k.notes (take 200 (error_text e)) s)

  fail_unless_permanent_lem :
      (note : String → Exec (Handling W P) Unit) (reason message : String) (e : Error)
      (s : Handling W P)
      → Notes note
      → let end = fail_unless_permanent note reason message e s in Settled end.0 (phase end.1.patch)
  unfolding Settled fail_unless_permanent raise
  fail_unless_permanent_lem note reason message (permanent m) s k = tt
  fail_unless_permanent_lem note reason message (temporary m) s k =
      fail_lem note reason message (temporary m) s k
  fail_unless_permanent_lem note reason message (api_exception status m) s k =
      fail_lem note reason message (api_exception status m) s k
  fail_unless_permanent_lem note reason message (exception m) s k =
      fail_lem note reason message (exception m) s k

  recovered :
      (note : String → Exec (Handling W P) Unit) (r : Result Unit) (reason message : String)
      (t : Handling W P)
      → Notes note
      → ((a : Unit) → r ≡ ok a → phase t.patch ≡ some "Ready")
      → let end = recover r (fail_unless_permanent note reason message) t in
        Settled end.0 (phase end.1.patch)
  unfolding Settled
  recovered note (ok a) reason message t k l = l a refl
  recovered note (err e) reason message t k l = fail_unless_permanent_lem note reason message e t k

  -- A body with the handlers' `except` and `finally` clauses.
  pub guarded-Settled :
      (note : String → Exec (Handling W P) Unit) (body : Exec (Handling W P) Unit)
      (reason message : String) (s : Handling W P)
      → Notes note
      → Readies body
      → let end = finally (catch body (fail_unless_permanent note reason message)) decrement s in
        Settled end.0 (phase end.1.patch)
  unfolding finally decrement catch
  guarded-Settled note body reason message s k l =
      recovered note (body s).0 reason message (body s).1 k (l.at s)

  pub Settled-Readies :
      (m : Exec (Handling W P) Unit)
      → ((s : Handling W P) → Settled (m s).0 (phase (m s).1.patch))
      → Readies m
  unfolding Settled
  Settled-Readies m k = record { at = λ s a e. on_ok (m s).0 (phase (m s).1.patch) a (k s) e }
    where
      on_ok :
          (r : Result Unit) (phase : Option String) (a : Unit)
          → Settled r phase
          → r ≡ ok a
          → phase ≡ some "Ready"
      on_ok (ok b) phase a h e = h
      on_ok (err x) phase a h e = cc
