-- ===== src/Pods/Protocol/Pod.antt =====
-- The requests that `Pod` and `DispenserPodImpl` of `cocktail-maker/pod.cpp` make. The id of the pod is the
-- one that its state has at that time.
use cocktail_maker.Prelude.{ℕ, ◌+◌, ◌*◌, List, Option, none, some, String, Bool}
use cocktail_maker.Prelude.Expected.{Expected, value, unexpected}
use cocktail_maker.Prelude.Int.{ℤ}
use cocktail_maker.Pods.{PodInfo}
use cocktail_maker.Errors.{Exception, other_error, protocol_error}
use cocktail_maker.Pods.Protocol.{
  Outgoing, device_info_request, ping, emergency_stop, load_cell_calibrate, load_cell_tare,
  dispense, pump_start_calibration, highlight_dispenser, Incoming, device_info_response,
  dispense_finished, pump_finished_calibration, Connection, is_pong, is_device_info,
  is_dispense_finished, is_pump_finished,
}
use cocktail_maker.Pods.Protocol.Requests.{
  dispenser_env, default_env, send_with_ack, send_and_receive, send_action_with_response,
}

module _ {Q : Type 0} (ids : ℕ) (write : Outgoing Q → Option Exception)
    (answer : List (ℕ × Outgoing Q) → ℕ → Bool → ℕ → Option (Incoming Q)) where
  -- What a request leaves, and its result.
  abbrev pub Requested : Type 0 → Type 0
  Requested A = Connection Q × Expected Exception A

  -- `Task<void>`: the message that ended the wait is dropped.
  abbrev pub completed :
      Connection Q × (ℕ × Expected Exception (Incoming Q)) → Connection Q × Option Exception
  completed (c, (id, value m)) = (c, none)
  completed (c, (id, unexpected e)) = (c, some e)

  -- The content of a message of the kind that was waited for; no other one gets here.
  abbrev pub content : {A : Type 0} → (Incoming Q → Option A) → Requested (Incoming Q) → Requested A
  content read (c, unexpected e) = (c, unexpected e)
  content read (c, value m) = elim (read m) [
    | some a ↦ (c, value a)
    | none ↦ (c, unexpected (protocol_error ""))
  ]

  abbrev pub read_info : Incoming Q → Option PodInfo
  read_info (device_info_response info) = some info
  read_info _ = none

  abbrev pub read_dispensed : Incoming Q → Option Q
  read_dispensed (dispense_finished volume) = some volume
  read_dispensed _ = none

  abbrev pub read_pumped : Incoming Q → Option Q
  read_pumped (pump_finished_calibration volume) = some volume
  read_pumped _ = none

  module _ (pod_id : String) where
    unfoldable pub aquire_device_info : Connection Q → ℕ → Requested PodInfo
    unfolding send_and_receive
    aquire_device_info c timeout = content read_info (
        send_and_receive ids write answer c device_info_request is_device_info
          (default_env pod_id timeout))

    unfoldable pub pod_load_cell_calibrate : Connection Q → ℤ → Q → Connection Q × Option Exception
    unfolding send_with_ack
    pod_load_cell_calibrate c d grams =
        completed
          (send_with_ack ids write answer c (load_cell_calibrate d grams) (dispenser_env pod_id d))

    unfoldable pub pod_load_cell_tare : Connection Q → ℤ → Connection Q × Option Exception
    unfolding send_with_ack
    pod_load_cell_tare c d =
        completed (send_with_ack ids write answer c (load_cell_tare d) (dispenser_env pod_id d))

    unfoldable pub pod_dispense : Connection Q → ℤ → Q → Requested Q
    unfolding send_action_with_response
    pod_dispense c d volume = content read_dispensed (
        send_action_with_response ids write answer c (dispense d volume) is_dispense_finished 30000
          (dispenser_env pod_id d))

    unfoldable pub pump_calibrate : Connection Q → ℤ → ℕ → Requested Q
    unfolding send_action_with_response
    pump_calibrate c d steps = content read_pumped (
        send_action_with_response ids write answer c (pump_start_calibration d steps)
          is_pump_finished (steps * 2 + 100) (dispenser_env pod_id d))

    unfoldable pub pod_highlight : Connection Q → ℤ → ℕ → Connection Q × Option Exception
    unfolding send_with_ack
    pod_highlight c d duration =
        completed (
          send_with_ack ids write answer c (highlight_dispenser d duration)
            (dispenser_env pod_id d))

    unfoldable pub force_safe_state : Connection Q → Connection Q × Option Exception
    unfolding send_with_ack
    force_safe_state c =
        completed (send_with_ack ids write answer c emergency_stop (default_env pod_id 100))

    unfoldable pub ping_pod : Connection Q → ℕ → Requested (Incoming Q)
    unfolding send_and_receive
    ping_pod c timeout =
        send_and_receive ids write answer c ping is_pong (default_env pod_id timeout)

  -- `DispenserPodImpl`: the pod of a dispenser may be gone.
  unfoldable pub dispenser_dispense : Option String → Connection Q → ℤ → Q → Requested Q
  unfolding pod_dispense
  dispenser_dispense none c d volume = (c, unexpected (other_error "Pod lifetime exceeded"))
  dispenser_dispense (some pod_id) c d volume = pod_dispense pod_id c d volume

  unfoldable pub dispenser_tare : Option String → Connection Q → ℤ → Connection Q × Option Exception
  unfolding pod_load_cell_tare
  dispenser_tare none c d = (c, some (other_error "Pod lifetime exceeded"))
  dispenser_tare (some pod_id) c d = pod_load_cell_tare pod_id c d

  unfoldable pub dispenser_calibrate :
      Option String → Connection Q → ℤ → Q → Connection Q × Option Exception
  unfolding pod_load_cell_calibrate
  dispenser_calibrate none c d grams = (c, some (other_error "Pod lifetime exceeded"))
  dispenser_calibrate (some pod_id) c d grams = pod_load_cell_calibrate pod_id c d grams

  unfoldable pub dispenser_highlight :
      Option String → Connection Q → ℤ → ℕ → Connection Q × Option Exception
  unfolding pod_highlight
  dispenser_highlight none c d duration = (c, some (other_error "Pod lifetime exceeded"))
  dispenser_highlight (some pod_id) c d duration = pod_highlight pod_id c d duration

  -- `Pump::calibrate`
  unfoldable pub pump_calibrate_handle : Option String → Connection Q → ℤ → ℕ → Requested Q
  unfolding pump_calibrate
  pump_calibrate_handle none c d steps = (c, unexpected (other_error "Pod lifetime exceeded"))
  pump_calibrate_handle (some pod_id) c d steps = pump_calibrate pod_id c d steps
