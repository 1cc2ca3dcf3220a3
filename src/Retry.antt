-- ===== src/Retry.antt =====
-- `core/retry.cppm`: the growing timeouts, and the attempts of an operation that may time out. Times
-- are numbers of milliseconds.
pub mod Laws
use cocktail_maker.Prelude.{ℕ, zero, suc, ◌*◌, ◌-◌, min, ltb, leb, Bool, if◌then◌else◌}

pub record ExponentialBackoffPolicy : Type 0 where
  pub initial : ℕ
  pub maximum : ℕ

-- The loop, which runs at most the given number of rounds.
unfoldable pub grow : ℕ → ℕ → ℕ → ℕ
grow maximum zero delay = delay
grow maximum (suc rounds) delay =
    let rest = grow maximum rounds (min (delay * 2) maximum) in
    if ltb delay maximum then rest else delay

unfoldable pub backoff : ExponentialBackoffPolicy → ℕ → ℕ
unfolding grow
backoff policy retry = grow policy.maximum retry policy.initial

-- How an attempt ends: with a value, with a `TimeoutError`, or with another exception.
pub data Attempt (E A : Type 0) : Type 0 where
  returned : A → Attempt E A
  timed_out : Attempt E A
  failed : E → Attempt E A

-- What the attempt with the given number does under the given timeout is the parameter `f`.
module _ {E A : Type 0} (policy : ℕ → ℕ) (f : ℕ → ℕ → Attempt E A) where
  -- The loop from attempt `retry` on, with the given number of retries left.
  unfoldable pub retry_from : ℕ → ℕ → Attempt E A
  retry_from zero retry = f retry (policy retry)
  retry_from (suc left) retry =
      let rest = retry_from left (suc retry) in
      elim (f retry (policy retry)) [
        | returned a ↦ returned a
        | failed e ↦ failed e
        | timed_out ↦ rest
      ]

  unfoldable pub retry_on_timeout : ℕ → Attempt E A
  unfolding retry_from
  retry_on_timeout max_retries = retry_from max_retries 0
