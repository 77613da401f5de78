-- ===== src/Operator/Examples/Retries.antt =====
-- A method that always fails, with two retries.
use openstack_keystone.Prelude.{ℕ, Bool, true, [], ◌*◌}
use openstack_keystone.Exec.{Error, exception, Exec, err}
use openstack_keystone.Operator.Retry.{Retrying, retry_from}
use openstack_keystone.Operator.Retry.Pace.{Paced, retry_from-Paced}

abbrev always : Error → Bool
always e = true

abbrev scale : ℕ → ℕ → ℕ
scale a b = a * b

abbrev failing : Exec ℕ ℕ
failing w = (err (exception "HttpException"), w)

abbrev start : Retrying ℕ ℕ
start = record { cloud = 0; calls = 0; slept = [] }

retry_from-Paced_example :
    Paced always scale 2 failing 2 1 start (retry_from always scale 2 failing 2 1 start).1
retry_from-Paced_example = retry_from-Paced always scale 2 failing 2 1 start
