-- ===== src/Station/Queue/Laws.antt =====
-- What the user interface shows once the queue is empty.
use cocktail_maker.Prelude.{
  ℕ, ◌≡◌, ◌≢◌, ◌↔◌, true, not, inl, inr, All, Option-cases, arith, refl, ap, ◌∙◌, List, [], ◌∷◌,
  ◌++◌, none, some, String_eq, ℕ_eq, ==_self,
}
use cocktail_maker.Prelude.Assoc.{find}
use cocktail_maker.Station.{
  Bridge, PodStateData, UiTask, update_pod_task, set_station_ready_task, remove_pod_task,
  ConnectionState, is_connected, is_connecting, is_disconnected, shows_connected, is_pod_connected,
  all_of, empty, all_connected, post, erase_handle, pod_connection_state_changed,
  pod_about_to_removed, destroy_pod_state,
}
use cocktail_maker.Station.Rows.{update_pod, remove_pod}
use cocktail_maker.Station.Rows.Laws.{row_of, row_of-remove_pod}
use cocktail_maker.Station.Rows.WellFormed.{
  IsWellFormed, update_pod-IsWellFormed, remove_pod-IsWellFormed,
}
use cocktail_maker.Station.Queue.{Shown, run_task, run_tasks}

-- Whatever is queued, every row has an id and no two rows have the same.
pub run_tasks-IsWellFormed :
    (tasks : List UiTask) (ui : Shown)
    → IsWellFormed ui.rows
    → IsWellFormed (run_tasks ui tasks).rows
unfolding run_tasks run_task
run_tasks-IsWellFormed [] ui w = w
run_tasks-IsWellFormed (update_pod_task pod ∷ tasks) ui w =
    run_tasks-IsWellFormed tasks (run_task ui (update_pod_task pod))
      (update_pod-IsWellFormed ui.rows pod w)
run_tasks-IsWellFormed (set_station_ready_task connected ∷ tasks) ui w =
    run_tasks-IsWellFormed tasks (run_task ui (set_station_ready_task connected)) w
run_tasks-IsWellFormed (remove_pod_task pod ∷ tasks) ui w =
    run_tasks-IsWellFormed tasks (run_task ui (remove_pod_task pod))
      (remove_pod-IsWellFormed ui.rows pod w)

run_tasks-append :
    (tasks more : List UiTask) (ui : Shown)
    → run_tasks ui (tasks ++ more) ≡ run_tasks (run_tasks ui tasks) more
unfolding run_tasks
run_tasks-append [] more ui = refl
run_tasks-append (task ∷ tasks) more ui = run_tasks-append tasks more (run_task ui task)

-- What is shown once the queue is empty.
abbrev pub drained : Shown → Bridge → Shown
drained ui b = run_tasks ui b.queue

pub drained-post :
    (ui : Shown) (b : Bridge) (tasks : List UiTask)
    → drained ui (post b tasks) ≡ run_tasks (drained ui b) tasks
unfolding post
drained-post ui b tasks = run_tasks-append b.queue tasks ui

pub drained-changed :
    (ui : Shown) (b : Bridge) (pod : PodStateData)
    → drained ui (pod_connection_state_changed b pod)
      ≡ record { rows = (update_pod (drained ui b).rows pod).0; station_ready = all_connected b }
unfolding pod_connection_state_changed run_tasks run_task post
drained-changed ui b pod =
    drained-post ui (post b (update_pod_task pod ∷ []))
      (set_station_ready_task (all_connected b) ∷ [])
    ∙ ap (λ s. run_tasks s (set_station_ready_task (all_connected b) ∷ []))
        (drained-post ui b (update_pod_task pod ∷ []))

pub drained-removed :
    (ui : Shown) (b : Bridge) (h : ℕ) (pod : PodStateData)
    → let left : Bridge = record b { pods = erase_handle h b.pods } in
      drained ui (pod_about_to_removed b h pod) ≡ record {
        rows = (remove_pod (update_pod (drained ui b).rows pod).0 pod).0;
        station_ready = all_connected left;
      }
unfolding pod_about_to_removed run_tasks run_task
drained-removed ui b h pod =
    let left : Bridge = record b { pods = erase_handle h b.pods } in
    drained-post ui (pod_connection_state_changed left pod) (remove_pod_task pod ∷ [])
    ∙ ap (λ s. run_tasks s (remove_pod_task pod ∷ [])) (drained-changed ui left pod)

-- There are pods, and each of them lives and is connected.
abbrev pub IsConnected : Bridge → ℕ → Type 0
IsConnected b h =
    (d : PodStateData) × ((find h b.states ≡ some d) × (d.connection_state ≡ is_connected))

abbrev pub IsReady : Bridge → Type 0
IsReady b = (b.pods ≢ []) × All (IsConnected b) b.pods

is_pod_connected-IsConnected :
    (b : Bridge) (h : ℕ) → (is_pod_connected b.states h ≡ true) ↔ IsConnected b h
unfolding is_pod_connected
is_pod_connected-IsConnected b h = elim (Option-cases (find h b.states)) [
  | inl gone ↦ (
    λ c. absurd (ground (arith, c, gone)),
    λ x. let (d, (there, _)) = x in absurd (ground (arith, there, gone)),
  )
  | inr (d, living) ↦ (
    λ c. (d, (living, state_of d.connection_state (rw (is_pod_connected, living) at c))),
    λ x. let (d', (there, state)) = x in rw (is_pod_connected, there, state) refl,
  )
]
  where
    state_of : (c : ConnectionState) → shows_connected c ≡ true → c ≡ is_connected
    state_of is_connected h = refl
    state_of is_connecting h = cc
    state_of is_disconnected h = cc

all_of_iff :
    (b : Bridge) (l : List ℕ)
    → (all_of (is_pod_connected b.states) l ≡ true) ↔ All (IsConnected b) l
all_of_iff b [] = (λ h. tt, λ h. refl)
all_of_iff b (p ∷ l) = (
  λ h. (
    (is_pod_connected-IsConnected b p).0 (ground (arith, h)),
    (all_of_iff b l).0 (ground (arith, h)),
  ),
  λ h. ground (arith, (is_pod_connected-IsConnected b p).1 h.0, (all_of_iff b l).1 h.1),
)

not-empty_iff : (l : List ℕ) → (not (empty l) ≡ true) ↔ (l ≢ [])
not-empty_iff [] = (λ h. cc, λ h. absurd (h refl))
not-empty_iff (p ∷ l) = (λ h e. cc, λ h. refl)

pub all_connected_iff : (b : Bridge) → (all_connected b ≡ true) ↔ IsReady b
unfolding all_connected
all_connected_iff b = (
  λ h. ((not-empty_iff b.pods).0 (ground (arith, h)), (all_of_iff b b.pods).0 (ground (arith, h))),
  λ h. ground (arith, (not-empty_iff b.pods).1 h.0, (all_of_iff b b.pods).1 h.1),
)

-- After a pod state is destroyed and the queue has run, no row has the id of the pod.
pub destroy_pod_state-shown :
    (ui : Shown) (b : Bridge) (h : ℕ) (pod : PodStateData)
    → find h b.states ≡ some pod
    → row_of pod.info.id (drained ui (destroy_pod_state b h)).rows ≡ none
unfolding destroy_pod_state
destroy_pod_state-shown ui b h pod living =
    rw
      (
        destroy_pod_state,
        living,
        drained-removed ui b h pod,
        row_of-remove_pod (update_pod (drained ui b).rows pod).0 pod pod.info.id,
        ==_self pod.info.id,
      )
      refl
