-- ===== src/Operator/Retry.antt =====
-- `retry_on_error` (openstack-operator/src/openstack_client.py): the decorator of the client's
-- methods. Delays are of any type with a product, since Python's are floats. Which exceptions are
-- transient is a parameter; the rate limiter and the metrics are left out.
pub mod Pace
use openstack_keystone.Prelude.{ℕ, zero, suc, Bool, true, false, List, [], ◌∷◌, ◌++◌, if◌then◌else◌}
use openstack_keystone.Exec.{Error, exception, Result, ok, err, Exec}

-- The cloud, how often the method was called, and the delays that were slept.
pub record Retrying (D W : Type 0) : Type 0 where
  pub cloud : W
  pub calls : ℕ
  pub slept : List D

unfoldable pub sleep : {D W : Type 0} → D → Retrying D W → Retrying D W
sleep delay s = record s { slept = s.slept ++ delay ∷ [] }

unfoldable pub called : {D W : Type 0} → W → Retrying D W → Retrying D W
called w s = record s { cloud = w; calls = suc s.calls }

module _ {D W A : Type 0} (transient : Error → Bool) (times : D → D → D) (backoff : D)
    (func : Exec W A) where
  -- one attempt's outcome: a value is returned, a transient exception goes on with `retry`, and any
  -- other exception is raised
  unfoldable pub settle : Result A → Exec (Retrying D W) A → Exec (Retrying D W) A
  settle (ok a) retry s = (ok a, s)
  settle (err e) retry s = let again = retry s in if transient e then again else (err e, s)

  -- the loop, by the number of retries that are left
  unfoldable pub retry_from : ℕ → D → Exec (Retrying D W) A
  unfolding settle sleep called
  retry_from zero delay s =
      let (r, w) = func s.cloud in
      settle r (λ t. (err (exception "Operation failed after all attempts"), t)) (called w s)
  retry_from (suc n) delay s =
      let (r, w) = func s.cloud in
      settle r (λ t. retry_from n (times delay backoff) (sleep delay t)) (called w s)
