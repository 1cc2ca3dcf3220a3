-- ===== src/Station/Rows.antt =====
-- `PodUiModel` of `gui/src/station_state_bridge.cpp`: the rows of pods that the user interface shows,
-- and what the model tells the views of it. Texts hold no zero byte.
pub mod Laws
pub mod WellFormed
pub mod View
pub mod Dispensers
use cocktail_maker.Prelude.{
  ℕ, zero, suc, ◌+◌, Bool, true, false, not, ◌||◌, ◌&&◌, List, [], ◌∷◌, ◌++◌, Option, none, some,
  String, ◌==◌, String_eq, ℕ_eq, if◌then◌else◌, length,
}
use cocktail_maker.Prelude.Int.{ℤ, pos, negsuc, ◌+ℤ◌, ℤ_eq}
use cocktail_maker.Pods.{PodInfo, Dispenser, pump, valve}
use cocktail_maker.Station.{
  PodStateData, ConnectionState, is_connected, is_connecting, is_disconnected,
}

pub data DispenserType : Type 0 where
  pump_type : DispenserType
  valve_type : DispenserType

-- `gui::Dispenser`
pub record UiDispenser : Type 0 where
  pub id : ℤ
  pub type : DispenserType

-- `gui::Pod`; the dispensers are a pointer that may be null.
pub record UiPod : Type 0 where
  pub id : String
  pub connection_state : ConnectionState
  pub dispensers : Option (List UiDispenser)

-- What views are told: the row that changed; the place and number of the rows added or removed.
pub data Notice : Type 0 where
  row_changed : ℕ → Notice
  row_added : ℕ → ℕ → Notice
  row_removed : ℕ → ℕ → Notice

abbrev pub same_state : ConnectionState → ConnectionState → Bool
same_state is_connected is_connected = true
same_state is_connecting is_connecting = true
same_state is_disconnected is_disconnected = true
same_state _ _ = false

-- The rounds of a loop from 0 to an `int`.
abbrev pub rounds : ℤ → ℕ
rounds (pos n) = n
rounds (negsuc n) = 0

-- The rounds `i`, `i + 1`, … of a loop that adds dispensers of one type, with ids from `first` on.
unfoldable pub push_dispensers : DispenserType → ℤ → ℕ → ℕ → List UiDispenser
push_dispensers type first i zero = []
push_dispensers type first i (suc n) =
    record { id = first +ℤ pos i; type = type } ∷ push_dispensers type first (suc i) n

unfoldable pub dispenser_rows : PodInfo → List UiDispenser
unfolding push_dispensers
dispenser_rows info =
    push_dispensers pump_type (pos 0) 0 (rounds info.num_pumps)
    ++ push_dispensers valve_type info.num_pumps 0 (rounds info.num_valves)

-- Whether the dispensers are built anew: there are none, or not as many as the pod has.
abbrev pub is_stale : UiPod → PodStateData → Bool
is_stale row pod = elim row.dispensers [
  | none ↦ true
  | some ds ↦ not (pos (length ds) == (pod.info.num_pumps +ℤ pod.info.num_valves))
]

-- The row after the update, and whether it changed.
unfoldable pub apply_state_to_ui : UiPod → PodStateData → UiPod × Bool
unfolding dispenser_rows
apply_state_to_ui row pod =
    let other_id = not (row.id == pod.info.id) in
    let other_state = not (same_state row.connection_state pod.connection_state) in
    let stale = is_stale row pod in
    (
      record {
        id = if other_id then pod.info.id else row.id;
        connection_state = if other_state then pod.connection_state else row.connection_state;
        dispensers = if stale then some (dispenser_rows pod.info) else row.dispensers;
      },
      (other_id || other_state) || stale,
    )

-- The place of the first row of the pod, and the row.
unfoldable pub find_gui_pod : List UiPod → String → Option (ℕ × UiPod)
find_gui_pod [] id = none
find_gui_pod (row ∷ rows) id =
    let rest = find_gui_pod rows id in
    if row.id == id
    then some (0, row)
    else elim rest [ none ↦ none | some found ↦ some (suc found.0, found.1) ]

abbrev pub set_row : ℕ → UiPod → List UiPod → List UiPod
set_row i row [] = []
set_row zero row (r ∷ rows) = row ∷ rows
set_row (suc i) row (r ∷ rows) = r ∷ set_row i row rows

-- `gui::Pod{}`
abbrev pub new_row : UiPod
new_row = record { id = ""; connection_state = is_disconnected; dispensers = none }

unfoldable pub update_pod : List UiPod → PodStateData → List UiPod × List Notice
unfolding find_gui_pod apply_state_to_ui
update_pod rows pod = elim (find_gui_pod rows pod.info.id) [
  | some found ↦
      let applied = apply_state_to_ui found.1 pod in
      (set_row found.0 applied.0 rows, if applied.1 then row_changed found.0 ∷ [] else [])
  | none ↦
      if pod.info.id == ""
      then (rows, [])
      else (rows ++ ((apply_state_to_ui new_row pod).0 ∷ []), row_added (length rows) 1 ∷ [])
]

-- `std::ranges::remove_if` moves the rows that stay to the front.
unfoldable pub rows_kept : String → List UiPod → List UiPod
rows_kept id [] = []
rows_kept id (row ∷ rows) = if row.id == id then rows_kept id rows else row ∷ rows_kept id rows

abbrev pub count_rows : String → List UiPod → ℕ
count_rows id [] = 0
count_rows id (row ∷ rows) = if row.id == id then suc (count_rows id rows) else count_rows id rows

-- The rows behind the place where the range that was moved ends are erased.
unfoldable pub remove_pod : List UiPod → PodStateData → List UiPod × List Notice
unfolding rows_kept
remove_pod rows pod =
    let kept = rows_kept pod.info.id rows in
    let removed = count_rows pod.info.id rows in
    if removed == 0 then (rows, []) else (kept, row_removed (length kept) removed ∷ [])
