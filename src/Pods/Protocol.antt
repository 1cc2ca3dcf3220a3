-- ===== src/Pods/Protocol.antt =====
-- The requests of a pod: `cocktail-maker/pod.cpp` with `async_send`, `receive_matching` and
-- `read_with_timeout` of `pod_protocol_session.cppm` and `.cpp`. What the pod answers is a parameter, as are
-- the failures to send; times are numbers of milliseconds. Values are sent as they are given.
pub mod Requests
pub mod Pod
pub mod Laws
use cocktail_maker.Prelude.{
  ℕ, ◌+◌, ◌*◌, ◌%◌, List, [], ◌∷◌, ◌++◌, Option, none, some, String, Bool, true, false,
  if◌then◌else◌,
}
use cocktail_maker.Prelude.Expected.{Expected, value, unexpected}
use cocktail_maker.Prelude.Int.{ℤ}
use cocktail_maker.Pods.{PodInfo}
use cocktail_maker.Errors.{
  Exception, ErrorCode, code_dispenser_empty, dispenser_empty_error, pod_receive_error,
  pod_timeout_error, timeout_error, protocol_error, is_timeout,
}

-- The messages that are sent.
pub data Outgoing (Q : Type 0) : Type 0 where
  device_info_request : Outgoing Q
  ping : Outgoing Q
  emergency_stop : Outgoing Q
  load_cell_calibrate : ℤ → Q → Outgoing Q
  load_cell_tare : ℤ → Outgoing Q
  dispense : ℤ → Q → Outgoing Q
  pump_start_calibration : ℤ → ℕ → Outgoing Q
  highlight_dispenser : ℤ → ℕ → Outgoing Q

-- The messages that are received.
pub data Incoming (Q : Type 0) : Type 0 where
  ack : Incoming Q
  nak : ErrorCode → Incoming Q
  pong : Incoming Q
  device_info_response : PodInfo → Incoming Q
  dispense_finished : Q → Incoming Q
  pump_finished_calibration : Q → Incoming Q

-- The transaction ids given out so far, as a counter, and what was sent under them.
pub record Connection (Q : Type 0) : Type 0 where
  pub transaction_id_counter : ℕ
  pub sent : List (ℕ × Outgoing Q)

pub record MessageEnvironment : Type 0 where
  pub pod_id : String
  pub dispenser_id : ℤ
  pub timeout : ℕ

unfoldable pub process_nak : ErrorCode → MessageEnvironment → Exception
process_nak code_dispenser_empty env = dispenser_empty_error env.pod_id env.dispenser_id
process_nak code env = pod_receive_error env.pod_id code

-- The `catch` of a `TimeoutError`.
unfoldable pub rethrown : MessageEnvironment → Exception → Exception
rethrown env e = if is_timeout e then pod_timeout_error env.pod_id else e

module _ {Q : Type 0} where
  -- The kinds of message that a request waits for, besides a refusal.
  abbrev pub is_ack : Incoming Q → Bool
  is_ack ack = true
  is_ack _ = false

  abbrev pub is_pong : Incoming Q → Bool
  is_pong pong = true
  is_pong _ = false

  abbrev pub is_device_info : Incoming Q → Bool
  is_device_info (device_info_response info) = true
  is_device_info _ = false

  abbrev pub is_dispense_finished : Incoming Q → Bool
  is_dispense_finished (dispense_finished volume) = true
  is_dispense_finished _ = false

  abbrev pub is_pump_finished : Incoming Q → Bool
  is_pump_finished (pump_finished_calibration volume) = true
  is_pump_finished _ = false

  abbrev pub is_nak : Incoming Q → Bool
  is_nak (nak code) = true
  is_nak _ = false

  -- `receive_matching`: no message within the timeout, or one of another kind.
  unfoldable pub receive_matching :
      (Incoming Q → Bool) → Option (Incoming Q) → Expected Exception (Incoming Q)
  receive_matching expected none = unexpected timeout_error
  receive_matching expected (some msg) =
      if expected msg
      then value msg
      else unexpected (protocol_error "Expected message doesn't match with received message id.")

  -- `generate_new_transaction_id` for the given number of ids.
  unfoldable pub new_transaction : ℕ → Connection Q → Connection Q × ℕ
  new_transaction ids c =
      let id = (c.transaction_id_counter + 1) % ids in
      (record c { transaction_id_counter = id }, id)
