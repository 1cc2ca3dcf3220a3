-- ===== src/Examples/Window.antt =====
-- The pods and screens that the window shows.
use cocktail_maker.Prelude.{
  ℕ, ◌≡◌, ◌↔◌, refl, false, [], ◌∷◌, none, some, String, String_eq, arith, get_elem?, ◌*◌,
}
use cocktail_maker.Prelude.Assoc.{find}
use cocktail_maker.Prelude.Expected.{value}
use cocktail_maker.Prelude.Int.{pos}
use cocktail_maker.Pods.{PodInfo, create_dispenser}
use cocktail_maker.OperatorAuth.{second}
use cocktail_maker.Station.{Bridge, PodStateData, is_connected, is_disconnected, connected}
use cocktail_maker.Station.Rows.{UiPod, UiDispenser, update_pod, remove_pod, dispenser_rows}
use cocktail_maker.Station.Rows.Laws.{row_of, row_after, row_of-update_pod}
use cocktail_maker.Station.Rows.View.{Describes, remove_pod-Describes}
use cocktail_maker.Station.Rows.Dispensers.{created, dispenser_rows-create_dispenser}
use cocktail_maker.Station.Queue.{Shown, run_tasks, state_updated}
use cocktail_maker.Station.Queue.Ready.{ShowsReady, call_all, call_all-ShowsReady}
use cocktail_maker.Station.Screen.{
  Screen, cocktail_list_page, is_admin, submit_pin, navigate_to, admin_area_page, station_auth,
  on_user_event,
}
use cocktail_maker.Station.Screen.Laws.{
  IsLetIn, on_user_events, entry, admin_area_entered, three_wrong_pins,
}
use cocktail_maker.Station.Lockout.{lockout_rounds}
use cocktail_maker.Station.Lockout.Laws.{IsOver, lockout_rounds-end}

abbrev info : String → PodInfo
info id = record { id = id; num_pumps = pos 2; num_valves = pos 1 }

abbrev pod : String → PodStateData
pod id = record { info = info id; connection_state = is_connected }

abbrev row : String → UiPod
row id = record { id = id; connection_state = is_disconnected; dispensers = none }

row_of-update_pod_example :
    row_of "b" (update_pod (row "a" ∷ row "b" ∷ []) (pod "b")).0
    ≡ some (row_after (row "b") (pod "b"))
row_of-update_pod_example = row_of-update_pod (row "a" ∷ row "b" ∷ []) (pod "b") "b" refl

-- The first of two pods is removed, and the views are told of another row.
remove_pod-Describes_example :
    let rows = row "a" ∷ row "b" ∷ [] in
    ((remove_pod rows (pod "a")).0 ≡ row "b" ∷ [])
    × (Describes rows (remove_pod rows (pod "a")).0 (remove_pod rows (pod "a")).1
        ↔ (row "b" ∷ [] ≡ []))
remove_pod-Describes_example =
    remove_pod-Describes [] (row "a") (row "b" ∷ []) (pod "a") refl tt (refl, tt)

dispenser_rows-create_dispenser_example :
    (d : UiDispenser) × ((get_elem? (dispenser_rows (info "a")) 2 ≡ some d)
      × ((d.id ≡ pos 2) × (create_dispenser (info "a") d.id ≡ value (created d))))
dispenser_rows-create_dispenser_example = dispenser_rows-create_dispenser "a" 2 1 2 (omega arith)

abbrev bridge : Bridge
bridge = record {
  pods = 7 ∷ [];
  states = (7, record { info = info "a"; connection_state = is_disconnected }) ∷ [];
  queue = [];
}

abbrev nothing_shown : Shown
nothing_shown = record { rows = []; station_ready = false }

-- The pod is there, but it is not connected yet.
bridge-ShowsReady : ShowsReady nothing_shown bridge
unfolding find run_tasks
bridge-ShowsReady = (λ h. cc, λ r. let (d, (there, state)) = r.1.0 in absurd cc)

call_all-ShowsReady_example :
    ShowsReady nothing_shown (call_all bridge (state_updated 7 connected ∷ []))
call_all-ShowsReady_example =
    call_all-ShowsReady nothing_shown (state_updated 7 connected ∷ []) bridge (tt, tt)
      bridge-ShowsReady

-- A hash that shows what it hashes.
abbrev pub shown_hash : String → String → String
shown_hash pin salt = pin

abbrev pub start_screen : Screen
start_screen = record {
  operator_auth = station_auth shown_hash;
  operator_authenticated = false;
  active_screen = cocktail_list_page;
  navigated = [];
  popup_closed = false;
  operator_locked_out = false;
  operator_remaining_attempts = 3;
  operator_lockout_seconds_remaining = 0;
  lockout_handlers = 0;
}

admin_area_entered_example : IsLetIn shown_hash start_screen (submit_pin "000000" 5)
unfolding station_auth on_user_event
admin_area_entered_example =
    admin_area_entered shown_hash start_screen [] (submit_pin "000000" 5) refl refl refl

three_wrong_pins_example :
    is_admin
      (on_user_events shown_hash
        (on_user_events shown_hash start_screen
          (entry ("1", 1) ∷ entry ("2", 2) ∷ entry ("3", 3) ∷ []))
        (submit_pin "000000" 100 ∷ navigate_to admin_area_page ∷ [])).active_screen
    ≡ false
unfolding station_auth
three_wrong_pins_example =
    three_wrong_pins shown_hash start_screen ("1", 1) ("2", 2) ("3", 3)
      (submit_pin "000000" 100 ∷ navigate_to admin_area_page ∷ []) refl refl refl
      (refl, (refl, (refl, tt))) (omega arith, (tt, tt))

abbrev locked_screen : Screen
locked_screen = record start_screen {
  operator_auth = record {
    config = (station_auth shown_hash).config;
    failed_attempts = 3;
    locked_until = some (2 * second);
  };
}

abbrev each_second : ℕ → ℕ
each_second n = n * second

lockout_rounds-end_example :
    (after : Screen) × ((lockout_rounds each_second each_second 3 0 locked_screen ≡ some after)
      × IsOver locked_screen after)
lockout_rounds-end_example =
    lockout_rounds-end each_second each_second 2 0 (2 * second) locked_screen refl
      (λ i. omega arith) (λ i. omega arith) (omega arith)
