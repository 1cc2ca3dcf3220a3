-- ===== src/Examples/Running.antt =====
-- Recipes, pods and tasks that run.
use cocktail_maker.Prelude.{
  ℕ, zero, suc, Bool, ◌≡◌, ◌↔◌, refl, true, false, List, [], ◌∷◌, ◌+◌, ◌&&◌, Option, none, some,
  if◌then◌else◌, length,
}
use cocktail_maker.Prelude.Members.{has}
use cocktail_maker.Prelude.Expected.{value}
use cocktail_maker.Prelude.Int.{pos}
use cocktail_maker.Errors.{Exception, pod_timeout_error}
use cocktail_maker.Recipe.{
  Recipe, Commands, single, manual, ManualCommand, leaves, assign_unique_command_ids,
}
use cocktail_maker.Recipe.Ids.{ids}
use cocktail_maker.Recipe.View.{UiCommand, not_started, shown_finished}
use cocktail_maker.Execution.{
  StatusChange, begins, ends, Executed, all_over, single_done, manual_done,
}
use cocktail_maker.Execution.Shown.{update_all}
use cocktail_maker.Execution.Shown.Laws.{status_of, replace, Executed-status_of}
use cocktail_maker.Tasks.{
  TaskState, running, succeeded, failed, stop_on_error, Group, spawn_all, ending, SiblingPolicy,
  RunOf, run_all, gather_all, on_error, rethrown, fails, Run, spawned, later, succeeds,
}
use cocktail_maker.Tasks.Laws.{count}
use cocktail_maker.Tasks.Results.{ending-succeeded}
use cocktail_maker.Retry.{Attempt, returned as answered, timed_out}
use cocktail_maker.Pods.{PodInfo, registered}
use cocktail_maker.Pods.Discovered.{commanded, force_safe_state_all}
use cocktail_maker.Pods.Discovered.Safe.{lives, force_safe_state_all_complete}
use cocktail_maker.Pods.Protocol.{Outgoing, Incoming, ack, dispense_finished, Connection}
use cocktail_maker.Pods.Protocol.Pod.{pod_dispense}
use cocktail_maker.Pods.Protocol.Laws.{first, second, pod_dispense-value_iff}

abbrev ice : ManualCommand
ice = record { id = 0; instruction = "Add ice" }

abbrev iced : Recipe ℕ
iced = record {
  id = "iced";
  display_name = "Iced";
  description = "";
  tags = [];
  image_path = "";
  nominal_serving_volume = 0;
  commands = single (manual ice) ∷ [];
}

abbrev changes : List StatusChange
changes = begins 1 ∷ ends 1 ∷ []

abbrev numbered_ice : Commands ℕ
numbered_ice = single (manual (record ice { id = 1 })) ∷ []

ice_added : Executed numbered_ice changes true
ice_added =
    single_done (manual (record ice { id = 1 })) [] changes [] true
      (manual_done (record ice { id = 1 })) all_over

abbrev ice_row : UiCommand
ice_row = record { id = 1; status = not_started; text = "Add ice"; value = "" }

Executed-status_of_example : status_of 1 (update_all (ice_row ∷ []) changes) ≡ (
    if has 1 (ids (leaves (assign_unique_command_ids iced).commands))
    then replace shown_finished (status_of 1 (ice_row ∷ []))
    else status_of 1 (ice_row ∷ []))
unfolding assign_unique_command_ids
Executed-status_of_example = Executed-status_of iced changes (ice_row ∷ []) 1 ice_added

-- One task, which succeeds.
abbrev one_task : List TaskState
one_task = running ∷ []

abbrev before : Group Exception
before = spawn_all one_task false

abbrev after : Group Exception
after = record before { tasks = succeeded ∷ [] }

one-Run : Run stop_on_error before [] after
unfolding spawn_all
one-Run = later before before after [] [] (spawned before) (succeeds before [] [] refl)

ending-succeeded_example : count succeeded after.tasks ≡ length one_task
unfolding ending spawn_all
ending-succeeded_example = ending-succeeded stop_on_error one_task false [] after one-Run refl refl

abbrev one_pod : ℕ → Option PodInfo
one_pod p = some (record { id = "a"; num_pumps = pos 1; num_valves = pos 0 })

-- The pod 3 fails, and the pod 4 is stopped safely all the same.
abbrev pod_failure : Exception
pod_failure = pod_timeout_error "a"

abbrev safe_start : SiblingPolicy × Group Exception
safe_start = force_safe_state_all one_pod (3 ∷ 4 ∷ []) false

abbrev one_failed : Group Exception
one_failed = record {
  tasks = failed ∷ running ∷ [];
  first_error = some pod_failure;
  children_stop = false;
  parent_stop = false;
}

abbrev all_ended : Group Exception
all_ended = record one_failed { tasks = failed ∷ succeeded ∷ [] }

safe-Run : RunOf safe_start (pod_failure ∷ []) all_ended
unfolding force_safe_state_all gather_all run_all spawn_all commanded on_error
safe-Run =
    later safe_start.1 one_failed all_ended (pod_failure ∷ []) []
      (later safe_start.1 safe_start.1 one_failed [] (pod_failure ∷ []) (spawned safe_start.1)
        (fails safe_start.1 [] (running ∷ []) pod_failure refl))
      (succeeds one_failed (failed ∷ []) [] refl)

force_safe_state_all_complete_example :
    (has 4 (commanded one_pod (3 ∷ 4 ∷ [])) ≡ (registered 4 (3 ∷ 4 ∷ []) && lives one_pod 4))
    × ((count succeeded all_ended.tasks + count failed all_ended.tasks
          ≡ length (commanded one_pod (3 ∷ 4 ∷ [])))
        × (rethrown (ending all_ended) ≡ some pod_failure))
force_safe_state_all_complete_example =
    force_safe_state_all_complete one_pod (3 ∷ 4 ∷ []) 4 (pod_failure ∷ []) all_ended safe-Run refl
      refl

-- A pod that never answers the first ping of a round, and always the second.
abbrev slow_ping : ℕ → ℕ → ℕ → Attempt Exception Bool
slow_ping round zero timeout = timed_out
slow_ping round (suc retry) timeout = answered true

abbrev no_info : ℕ → ℕ → Attempt Exception PodInfo
no_info retry timeout = timed_out

-- A pod that acknowledges everything and then reports 40 millilitres.
abbrev obedient : List (ℕ × Outgoing ℕ) → ℕ → Bool → ℕ → Option (Incoming ℕ)
obedient sent id false timeout = some ack
obedient sent id true timeout = some (dispense_finished 40)

abbrev sends_all : Outgoing ℕ → Option Exception
sends_all msg = none

abbrev new_connection : Connection ℕ
new_connection = record { transaction_id_counter = 0; sent = [] }

pod_dispense-value_iff_example :
    ((pod_dispense 256 sends_all obedient "a" new_connection (pos 0) 40).1 ≡ value 40) ↔ (
      (first 256 sends_all obedient "a" new_connection (pos 0) 40 ≡ some ack)
      × (second 256 sends_all obedient "a" new_connection (pos 0) 40 ≡ some (dispense_finished 40)))
pod_dispense-value_iff_example =
    pod_dispense-value_iff 256 sends_all obedient "a" new_connection (pos 0) 40 40 refl
