-- ===== src/Operator/Retry/Pace.antt =====
-- How often a retried method is called, and how long it waits between the calls.
use mathlib.Core.List.{append-nil}
use openstack_keystone.Prelude.{
  ℕ, zero, suc, ◌+◌, ◌≤◌, ◌≡◌, refl, sym, ◌∙◌, Bool, List, [], ◌∷◌, ◌++◌, arith, inl, inr,
  Bool-cases,
}
use openstack_keystone.Exec.{Error, Result, ok, err, Exec}
use openstack_keystone.Operator.Retry.{Retrying, sleep, called, settle, retry_from}

append_assoc :
    {D : Type 0} (xs : List D) (y : D) (zs : List D) → (xs ++ y ∷ []) ++ zs ≡ xs ++ y ∷ zs
append_assoc [] y zs = refl
append_assoc (x ∷ xs) y zs = rw (append_assoc xs y zs) refl

module _ {D W A : Type 0} (transient : Error → Bool) (times : D → D → D) (backoff : D)
    (func : Exec W A) where
  -- The first delays, each the one before it times the backoff.
  abbrev pub delays : ℕ → D → List D
  delays zero delay = []
  delays (suc k) delay = delay ∷ delays k (times delay backoff)

  -- From `s` to `end` the method was called once and then again after each of at most `n` delays.
  abbrev pub Paced : ℕ → D → Retrying D W → Retrying D W → Type 0
  Paced n delay s end =
      (k : ℕ) × (k ≤ n) × (end.calls ≡ k + suc s.calls) × (end.slept ≡ s.slept ++ delays k delay)

  once : (n : ℕ) (delay : D) (w : W) (s : Retrying D W) → Paced n delay s (called w s)
  unfolding called
  once n delay w s = (0, omega arith, omega arith, sym (append-nil s.slept))

  again :
      (n : ℕ) (delay : D) (w : W) (s end : Retrying D W)
      → Paced n (times delay backoff) (sleep delay (called w s)) end
      → Paced (suc n) delay s end
  unfolding called sleep
  again n delay w s end (k, bound, calls, slept) = (
    suc k,
    omega arith,
    omega arith,
    slept ∙ append_assoc s.slept delay (delays k (times delay backoff)),
  )

  settle-Paced :
      (r : Result A) (retry : Exec (Retrying D W) A) (n : ℕ) (delay : D) (w : W) (s : Retrying D W)
      → Paced n delay s (retry (called w s)).1
      → Paced n delay s (settle transient times backoff func r retry (called w s)).1
  unfolding settle
  settle-Paced (ok a) retry n delay w s h = once n delay w s
  settle-Paced (err e) retry n delay w s h = elim (Bool-cases (transient e)) [
    | inl retried ↦ rw retried h
    | inr raised ↦ rw raised (once n delay w s)
  ]

  -- A method with `n` retries, whatever it answers, is called at least once and at most `n + 1`
  -- times, and between the calls it waits for the delay, each time longer by the backoff.
  pub retry_from-Paced :
      (n : ℕ) (delay : D) (s : Retrying D W)
      → Paced n delay s (retry_from transient times backoff func n delay s).1
  unfolding retry_from
  retry_from-Paced zero delay s =
      let (r, w) = func s.cloud in settle-Paced r _ zero delay w s (once zero delay w s)
  retry_from-Paced (suc n) delay s =
      let (r, w) = func s.cloud in
      settle-Paced r _ (suc n) delay w s (
        again n delay w s
          (retry_from transient times backoff func n (times delay backoff)
            (sleep delay (called w s))).1
          (retry_from-Paced n (times delay backoff) (sleep delay (called w s))))
