-- ===== src/Operator/Handling.antt =====
-- What the kopf handlers of openstack-operator/src share: the state of one run, the gauge of runs
-- in progress, and what is done with an exception. A run changes the cloud, fills the patch of the
-- CR's status, and emits events. The counters and durations of metrics are left out.
pub mod Gauge
pub mod Outcome
use openstack_keystone.Prelude.{ℕ, suc, String, List, [], ◌∷◌, ◌++◌, concat, take}
use openstack_keystone.Exec.{
  Error, permanent, temporary, api_exception, exception, Result, ok, err, Exec, pure, raise, gets,
  modify, ◌>>=◌, ◌>>◌, catch,
}

-- `entered` and `left` count the increments and decrements of RECONCILE_IN_PROGRESS; `events` has
-- the reasons given to `kopf.warn`.
pub record Handling (W P : Type 0) : Type 0 where
  pub cloud : W
  pub patch : P
  pub entered : ℕ
  pub left : ℕ
  pub events : List String

-- `str(e)`
unfoldable pub error_text : Error → String
error_text (permanent m) = m
error_text (temporary m) = m
error_text (api_exception status m) = m
error_text (exception m) = m

module _ {W P : Type 0} where
  -- A call that only concerns the cloud.
  unfoldable pub on_cloud : {A : Type 0} → Exec W A → Exec (Handling W P) A
  on_cloud m s = let (r, w) = m s.cloud in (r, record s { cloud = w })

  unfoldable pub set_patch : (P → P) → Handling W P → Handling W P
  set_patch f s = record s { patch = f s.patch }

  -- A change of the patch that reads the clock.
  unfoldable pub set_patch_at : (W → String) → (String → P → P) → Handling W P → Handling W P
  set_patch_at now f s = record s { patch = f (now s.cloud) s.patch }

  unfoldable pub increment : Handling W P → Handling W P
  increment s = record s { entered = suc s.entered }

  unfoldable pub decrement : Handling W P → Handling W P
  decrement s = record s { left = suc s.left }

  unfoldable pub emit : String → Handling W P → Handling W P
  emit reason s = record s { events = s.events ++ reason ∷ [] }

  -- `try: m` with `finally: f`
  unfoldable pub finally :
      {A : Type 0} → Exec (Handling W P) A → (Handling W P → Handling W P) → Exec (Handling W P) A
  finally m f s = let (r, s') = m s in (r, f s')

  -- `except Exception` of the handlers: note the failure, emit an event, ask for a retry
  unfoldable pub fail :
      (String → Exec (Handling W P) Unit) → String → String → Error → Exec (Handling W P) Unit
  unfolding error_text
  fail note reason message e = do
    note (take 200 (error_text e))
    modify (emit reason)
    raise (temporary (concat message (error_text e)))

  -- the same after an `except kopf.PermanentError: raise`
  unfoldable pub fail_unless_permanent :
      (String → Exec (Handling W P) Unit) → String → String → Error → Exec (Handling W P) Unit
  fail_unless_permanent note reason message (permanent m) = raise (permanent m)
  fail_unless_permanent note reason message (temporary m) = fail note reason message (temporary m)
  fail_unless_permanent note reason message (api_exception status m) =
      fail note reason message (api_exception status m)
  fail_unless_permanent note reason message (exception m) = fail note reason message (exception m)
