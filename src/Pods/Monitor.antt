-- ===== src/Pods/Monitor.antt =====
-- `Pod::monitor_device` and `Pod::keep_alive` of `cocktail-maker/pod.cpp`. The attempts to read the
-- information of the pod and to ping it are parameters: what the attempt with a number does under a timeout, and
-- for a ping also in which round. Times are milliseconds.
pub mod Laws
use cocktail_maker.Prelude.{
  ℕ, zero, suc, List, [], ◌∷◌, ◌++◌, Option, none, some, String, Bool, true, false,
}
use cocktail_maker.Pods.{PodInfo}
use cocktail_maker.Retry.{
  ExponentialBackoffPolicy, backoff, Attempt, returned, timed_out, failed, retry_on_timeout,
}
use cocktail_maker.Errors.{Exception, pod_timeout_error}
use cocktail_maker.Station.{
  PodConnection, connecting, connected, disconnected, Bridge, update_state, update_info,
}

-- What the monitor tells the state of its pod, and sets `device_ready_` to.
pub data PodUpdate : Type 0 where
  state_update : PodConnection → PodUpdate
  info_update : PodInfo → PodUpdate
  device_ready : Bool → PodUpdate

abbrev pub info_policy : ExponentialBackoffPolicy
info_policy = record { initial = 100; maximum = 10000 }

abbrev pub ping_policy : ExponentialBackoffPolicy
ping_policy = record { initial = 100; maximum = 1000 }

module _ (pod_id : String) (aquire_device_info : ℕ → ℕ → Attempt Exception PodInfo)
    (ping : ℕ → ℕ → ℕ → Attempt Exception Bool) where
  -- One round of the loop: up to four pings.
  unfoldable pub ping_round : ℕ → Attempt Exception Bool
  unfolding retry_on_timeout backoff
  ping_round round = retry_on_timeout (backoff ping_policy) (ping round) 3

  -- The rounds from the given one on, until one throws; `none` where the given number of rounds is over
  -- and the loop is stopped.
  unfoldable pub keep_alive : ℕ → ℕ → Option Exception
  unfolding ping_round
  keep_alive zero round = none
  keep_alive (suc rounds) round =
      let rest = keep_alive rounds (suc round) in
      elim (ping_round round) [
        | returned _ ↦ rest
        | timed_out ↦ some (pod_timeout_error pod_id)
        | failed e ↦ some e
      ]

  -- `~Cleanup()`
  unfoldable pub cleanup : List PodUpdate
  cleanup = device_ready false ∷ state_update disconnected ∷ []

  -- The updates in order, and the exception that leaves the monitor.
  unfoldable pub monitor_device : ℕ → List PodUpdate × Option Exception
  unfolding retry_on_timeout backoff keep_alive cleanup
  monitor_device rounds = elim (retry_on_timeout (backoff info_policy) aquire_device_info 5) [
    | returned info ↦ (
      state_update connecting
          ∷ info_update info
          ∷ state_update connected
          ∷ device_ready true
          ∷ cleanup,
      keep_alive rounds 0,
    )
    | timed_out ↦ (state_update connecting ∷ cleanup, some (pod_timeout_error pod_id))
    | failed e ↦ (state_update connecting ∷ cleanup, some e)
  ]

-- The updates reach the pod state `h` of the station.
unfoldable pub apply_update : Bridge → ℕ → PodUpdate → Bridge
unfolding update_state update_info
apply_update b h (state_update state) = update_state b h state
apply_update b h (info_update info) = update_info b h info
apply_update b h (device_ready ready) = b

unfoldable pub apply_updates : Bridge → ℕ → List PodUpdate → Bridge
unfolding apply_update
apply_updates b h [] = b
apply_updates b h (u ∷ updates) = apply_updates (apply_update b h u) h updates
