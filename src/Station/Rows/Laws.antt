-- ===== src/Station/Rows/Laws.antt =====
-- The rows as a map from the ids of the pods.
use cocktail_maker.Prelude.{
  ℕ, suc, ◌≡◌, inl, inr, refl, true, false, List, [], ◌∷◌, ◌++◌, Option, none, some, String, ◌==◌,
  String_eq, ℕ_eq, if◌then◌else◌, arith, Option-cases, Bool-cases, ap, ◌∙◌, length,
}
use cocktail_maker.Prelude.Int.{ℤ_eq, pos, ◌+ℤ◌}
use cocktail_maker.Pods.{PodInfo}
use cocktail_maker.Station.{
  PodStateData, ConnectionState, is_connected, is_connecting, is_disconnected,
}
use cocktail_maker.Station.Rows.{
  UiDispenser, dispenser_rows, UiPod, apply_state_to_ui, find_gui_pod, set_row, new_row, update_pod,
  rows_kept, count_rows, remove_pod, same_state,
}

-- The first row with the id.
abbrev pub row_of : String → List UiPod → Option UiPod
row_of id [] = none
row_of id (row ∷ rows) = if row.id == id then some row else row_of id rows

abbrev pub applied : UiPod → PodStateData → UiPod
applied row pod = (apply_state_to_ui row pod).0

same_state_eq : (a b : ConnectionState) → same_state a b ≡ true → a ≡ b
same_state_eq is_connected is_connected h = refl
same_state_eq is_connecting is_connecting h = refl
same_state_eq is_disconnected is_disconnected h = refl
same_state_eq is_connected is_connecting h = cc
same_state_eq is_connected is_disconnected h = cc
same_state_eq is_connecting is_connected h = cc
same_state_eq is_connecting is_disconnected h = cc
same_state_eq is_disconnected is_connected h = cc
same_state_eq is_disconnected is_connecting h = cc

-- The row of the pod has its id, its connection state, and dispensers.
pub applied-id : (row : UiPod) (pod : PodStateData) → (applied row pod).id ≡ pod.info.id
unfolding apply_state_to_ui
applied-id row pod = ground (arith, String_eq.equal_iff row.id pod.info.id)

pub applied-connection_state :
    (row : UiPod) (pod : PodStateData) → (applied row pod).connection_state ≡ pod.connection_state
unfolding apply_state_to_ui
applied-connection_state row pod =
    ground (arith, same_state_eq row.connection_state pod.connection_state)

-- The dispensers that are shown after an update: as many as before stay, else they are those of
-- the pod.
abbrev pub dispensers_after : Option (List UiDispenser) → PodInfo → List UiDispenser
dispensers_after none info = dispenser_rows info
dispensers_after (some ds) info =
    if pos (length ds) == (info.num_pumps +ℤ info.num_valves) then ds else dispenser_rows info

-- What the row of a pod shows: its id, its connection state and dispensers.
abbrev pub row_after : UiPod → PodStateData → UiPod
row_after row pod = record {
  id = pod.info.id;
  connection_state = pod.connection_state;
  dispensers = some (dispensers_after row.dispensers pod.info);
}

applied-dispensers :
    (row : UiPod) (pod : PodStateData)
    → (applied row pod).dispensers ≡ some (dispensers_after row.dispensers pod.info)
unfolding apply_state_to_ui
applied-dispensers row pod = elim (Option-cases row.dispensers) [
  | inl missing ↦ rw (apply_state_to_ui, missing) refl
  | inr (ds, there) ↦
      elim (Bool-cases (pos (length ds) == (pod.info.num_pumps +ℤ pod.info.num_valves))) [
        | inl same ↦ rw (apply_state_to_ui, there, same) refl
        | inr other ↦ rw (apply_state_to_ui, there, other) refl
      ]
]

pub applied_lem : (row : UiPod) (pod : PodStateData) → applied row pod ≡ row_after row pod
applied_lem row pod = λ i. record {
  id = applied-id row pod i;
  connection_state = applied-connection_state row pod i;
  dispensers = applied-dispensers row pod i;
}

-- The row that find_gui_pod finds, and its place.
abbrev pub place_of : String → List UiPod → ℕ
place_of id [] = 0
place_of id (row ∷ rows) = if row.id == id then 0 else suc (place_of id rows)

abbrev pub found_at : ℕ → Option UiPod → Option (ℕ × UiPod)
found_at i none = none
found_at i (some row) = some (i, row)

pub find_gui_pod_lem :
    (rows : List UiPod) (id : String)
    → find_gui_pod rows id ≡ found_at (place_of id rows) (row_of id rows)
unfolding find_gui_pod
find_gui_pod_lem [] id = refl
find_gui_pod_lem (row ∷ rows) id = ground (arith, find_gui_pod_lem rows id)

row_of-set_row :
    (rows : List UiPod) (id j : String) (old row : UiPod)
    → row_of id rows ≡ some old
    → row.id ≡ id
    → row_of j (set_row (place_of id rows) row rows) ≡ (if id == j then some row else row_of j rows)
row_of-set_row [] id j old row h e = cc
row_of-set_row (r ∷ rows) id j old row h e = ground (
  arith,
  row_of-set_row rows id j old row,
  String_eq.equal_iff r.id id,
  String_eq.equal_iff r.id j,
  String_eq.equal_iff id j,
)

row_of-append :
    (rows : List UiPod) (id j : String) (row : UiPod)
    → row_of id rows ≡ none
    → row.id ≡ id
    → row_of j (rows ++ (row ∷ [])) ≡ (if id == j then some row else row_of j rows)
row_of-append [] id j row h e = ground (arith, String_eq.equal_iff row.id j)
row_of-append (r ∷ rows) id j row h e = ground (
  arith,
  row_of-append rows id j row,
  String_eq.equal_iff r.id id,
  String_eq.equal_iff r.id j,
  String_eq.equal_iff id j,
)

-- The row that the pod has, or a new one.
abbrev pub row_before : String → List UiPod → UiPod
row_before id rows = elim (row_of id rows) [ none ↦ new_row | some row ↦ row ]

row_of-update_applied :
    (rows : List UiPod) (pod : PodStateData) (j : String)
    → (pod.info.id == "") ≡ false
    → row_of j (update_pod rows pod).0 ≡ (
        if pod.info.id == j
        then some (applied (row_before pod.info.id rows) pod)
        else row_of j rows)
unfolding update_pod
row_of-update_applied rows pod j named = elim (Option-cases (row_of pod.info.id rows)) [
  | inl unshown ↦
      rw (update_pod, row_before, find_gui_pod_lem rows pod.info.id, unshown, named)
        (row_of-append rows pod.info.id j (applied new_row pod) unshown (applied-id new_row pod))
  | inr (row, shown) ↦
      rw (update_pod, row_before, find_gui_pod_lem rows pod.info.id, shown)
        (row_of-set_row rows pod.info.id j row (applied row pod) shown (applied-id row pod))
]

-- As a map from ids to rows, updating a pod that has an id leaves the row of every other id and
-- sets its own: the id and the connection state of the pod, and its dispensers, where the shown
-- ones stay if there are as many as the pod has.
pub row_of-update_pod :
    (rows : List UiPod) (pod : PodStateData) (j : String)
    → (pod.info.id == "") ≡ false
    → row_of j (update_pod rows pod).0 ≡ (
        if pod.info.id == j
        then some (row_after (row_before pod.info.id rows) pod)
        else row_of j rows)
row_of-update_pod rows pod j named =
    row_of-update_applied rows pod j named
    ∙ ap (λ r. if pod.info.id == j then some r else row_of j rows)
        (applied_lem (row_before pod.info.id rows) pod)

row_of-rows_kept :
    (rows : List UiPod) (id j : String)
    → row_of j (rows_kept id rows) ≡ (if id == j then none else row_of j rows)
unfolding rows_kept
row_of-rows_kept [] id j = ground arith
row_of-rows_kept (r ∷ rows) id j = ground (
  arith,
  row_of-rows_kept rows id j,
  String_eq.equal_iff r.id id,
  String_eq.equal_iff r.id j,
  String_eq.equal_iff id j,
)

pub rows_kept_all :
    (rows : List UiPod) (id : String) → count_rows id rows ≡ 0 → rows_kept id rows ≡ rows
unfolding rows_kept
rows_kept_all [] id h = refl
rows_kept_all (r ∷ rows) id h = ground (arith, rows_kept_all rows id)

pub remove_pod_lem :
    (rows : List UiPod) (pod : PodStateData) → (remove_pod rows pod).0 ≡ rows_kept pod.info.id rows
unfolding remove_pod
remove_pod_lem rows pod =
    ground (arith, rows_kept_all rows pod.info.id, ℕ_eq.equal_iff (count_rows pod.info.id rows) 0)

-- Removing a pod leaves no row of its id, and the row of every other id.
pub row_of-remove_pod :
    (rows : List UiPod) (pod : PodStateData) (j : String)
    → row_of j (remove_pod rows pod).0 ≡ (if pod.info.id == j then none else row_of j rows)
row_of-remove_pod rows pod j = rw (remove_pod_lem rows pod) (row_of-rows_kept rows pod.info.id j)
