-- ===== src/Station/Queue.antt =====
-- The event loop of the user interface, as far as the pods go: it runs the queued closures in order.
pub mod Laws
pub mod Ready
use cocktail_maker.Prelude.{Bool, List, [], ◌∷◌, ℕ}
use cocktail_maker.Pods.{PodInfo}
use cocktail_maker.Station.{
  Bridge, UiTask, update_pod_task, set_station_ready_task, remove_pod_task, PodConnection,
  create_pod_state, update_state, update_info, destroy_pod_state,
}
use cocktail_maker.Station.Rows.{UiPod, update_pod, remove_pod}

-- `pod_model_` and the property `station_ready` of the window.
pub record Shown : Type 0 where
  pub rows : List UiPod
  pub station_ready : Bool

unfoldable pub run_task : Shown → UiTask → Shown
unfolding update_pod remove_pod
run_task ui (update_pod_task pod) = record ui { rows = (update_pod ui.rows pod).0 }
run_task ui (set_station_ready_task connected) = record ui { station_ready = connected }
run_task ui (remove_pod_task pod) = record ui { rows = (remove_pod ui.rows pod).0 }

unfoldable pub run_tasks : Shown → List UiTask → Shown
unfolding run_task
run_tasks ui [] = ui
run_tasks ui (task ∷ tasks) = run_tasks (run_task ui task) tasks

-- What the station calls on the states of its pods.
pub data PodCall : Type 0 where
  created : ℕ → PodCall
  state_updated : ℕ → PodConnection → PodCall
  info_updated : ℕ → PodInfo → PodCall
  destroyed : ℕ → PodCall

unfoldable pub call : Bridge → PodCall → Bridge
unfolding create_pod_state update_state update_info destroy_pod_state
call b (created h) = create_pod_state b h
call b (state_updated h state) = update_state b h state
call b (info_updated h info) = update_info b h info
call b (destroyed h) = destroy_pod_state b h
