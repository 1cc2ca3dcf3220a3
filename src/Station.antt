-- ===== src/Station.antt =====
-- `StationStateBridge` of `gui/src/station_state_bridge.cppm` and `.cpp`, with the states of the pods of
-- `cocktail-maker/station_state.cppm`. The closures that are handed to the event loop of the user
-- interface are a queue, which is run from the front. A pod state is a handle, for its address.
pub mod Rows
pub mod Queue
pub mod Screen
pub mod Lockout
use cocktail_maker.Prelude.{
  ℕ, Bool, true, false, not, ◌&&◌, List, [], ◌∷◌, ◌++◌, Option, none, some, String, ◌==◌, ℕ_eq,
  if◌then◌else◌,
}
use cocktail_maker.Prelude.Assoc.{find, insert_or_assign, erase}
use cocktail_maker.Prelude.Int.{pos}
use cocktail_maker.Pods.{PodInfo}

-- `PodState::ConnectionState`
pub data PodConnection : Type 0 where
  unknown : PodConnection
  connecting : PodConnection
  connected : PodConnection
  disconnected : PodConnection

-- `gui::ConnectionState`
pub data ConnectionState : Type 0 where
  is_connected : ConnectionState
  is_connecting : ConnectionState
  is_disconnected : ConnectionState

pub record PodStateData : Type 0 where
  pub info : PodInfo
  pub connection_state : ConnectionState

-- What is handed to the event loop.
pub data UiTask : Type 0 where
  update_pod_task : PodStateData → UiTask
  set_station_ready_task : Bool → UiTask
  remove_pod_task : PodStateData → UiTask

-- `pods` is `pods_`; `states` is the data of each pod state that lives.
pub record Bridge : Type 0 where
  pub pods : List ℕ
  pub states : List (ℕ × PodStateData)
  pub queue : List UiTask

-- A new pod state has no id yet, and the first connection state of `gui/ui/data.slint`.
abbrev pub fresh_state : PodStateData
fresh_state = record {
  info = record { id = ""; num_pumps = pos 0; num_valves = pos 0 };
  connection_state = is_disconnected;
}

unfoldable pub create_pod_state : Bridge → ℕ → Bridge
create_pod_state b h = record b {
  pods = b.pods ++ (h ∷ []);
  states = insert_or_assign h fresh_state b.states;
}

-- The switch of `PodStateImpl::update_state`.
unfoldable pub ui_state : PodConnection → ConnectionState
ui_state unknown = is_disconnected
ui_state disconnected = is_disconnected
ui_state connecting = is_connecting
ui_state connected = is_connected

abbrev pub shows_connected : ConnectionState → Bool
shows_connected is_connected = true
shows_connected is_connecting = false
shows_connected is_disconnected = false

unfoldable pub is_pod_connected : List (ℕ × PodStateData) → ℕ → Bool
is_pod_connected states h = elim (find h states) [
  | none ↦ false
  | some d ↦ shows_connected d.connection_state
]

abbrev pub all_of : (ℕ → Bool) → List ℕ → Bool
all_of p [] = true
all_of p (h ∷ l) = p h && all_of p l

abbrev pub empty : List ℕ → Bool
empty [] = true
empty (h ∷ l) = false

unfoldable pub all_connected : Bridge → Bool
unfolding is_pod_connected
all_connected b = not (empty b.pods) && all_of (is_pod_connected b.states) b.pods

unfoldable pub post : Bridge → List UiTask → Bridge
post b tasks = record b { queue = b.queue ++ tasks }

unfoldable pub pod_connection_state_changed : Bridge → PodStateData → Bridge
unfolding post all_connected
pod_connection_state_changed b state_data =
    post (post b (update_pod_task state_data ∷ [])) (set_station_ready_task (all_connected b) ∷ [])

abbrev pub find_pod : List ℕ → ℕ → Option ℕ
find_pod [] h = none
find_pod (p ∷ pods) h = if p == h then some p else find_pod pods h

unfoldable pub pod_info_changed : Bridge → ℕ → PodStateData → Bridge
unfolding post
pod_info_changed b h state_data = elim (find_pod b.pods h) [
  | none ↦ b
  | some p ↦ post b (update_pod_task state_data ∷ [])
]

abbrev pub erase_handle : ℕ → List ℕ → List ℕ
erase_handle h [] = []
erase_handle h (p ∷ pods) = if p == h then erase_handle h pods else p ∷ erase_handle h pods

unfoldable pub pod_about_to_removed : Bridge → ℕ → PodStateData → Bridge
unfolding pod_connection_state_changed post
pod_about_to_removed b h state_data =
    let left : Bridge = record b { pods = erase_handle h b.pods } in
    post (pod_connection_state_changed left state_data) (remove_pod_task state_data ∷ [])

-- The members of `PodStateImpl` on the pod state `h`; one that does not live is left alone.
unfoldable pub update_state : Bridge → ℕ → PodConnection → Bridge
unfolding ui_state pod_connection_state_changed
update_state b h state = elim (find h b.states) [
  | none ↦ b
  | some old ↦
      let state_data : PodStateData = record old { connection_state = ui_state state } in
      pod_connection_state_changed (record b { states = insert_or_assign h state_data b.states })
        state_data
]

unfoldable pub update_info : Bridge → ℕ → PodInfo → Bridge
unfolding pod_info_changed
update_info b h info = elim (find h b.states) [
  | none ↦ b
  | some old ↦
      let state_data : PodStateData = record old { info = info } in
      pod_info_changed (record b { states = insert_or_assign h state_data b.states }) h state_data
]

-- `~PodStateImpl()`
unfoldable pub destroy_pod_state : Bridge → ℕ → Bridge
unfolding pod_about_to_removed
destroy_pod_state b h = elim (find h b.states) [
  | none ↦ b
  | some state_data ↦
      let after = pod_about_to_removed b h state_data in
      record after { states = erase h after.states }
]
