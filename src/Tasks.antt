-- ===== src/Tasks.antt =====
-- `run_all`, `join_all` and `gather_all` of `core/async_algorithms.cpp`: tasks that run concurrently. The
-- completions of tasks and the stop request of the caller are steps, in any order.
pub mod Laws
pub mod Results
use cocktail_maker.Prelude.{
  Bool, true, false, not, ◌&&◌, ◌||◌, ◌≡◌, List, [], ◌∷◌, ◌++◌, Option, none, some, or_else,
  if◌then◌else◌, map,
}

pub data SiblingPolicy : Type 0 where
  stop_on_error : SiblingPolicy
  run_to_completion : SiblingPolicy

abbrev pub stops_siblings : SiblingPolicy → Bool
stops_siblings stop_on_error = true
stops_siblings run_to_completion = false

pub data TaskState : Type 0 where
  running : TaskState
  succeeded : TaskState
  failed : TaskState
  stopped : TaskState

-- `children_stop` and `parent_stop` tell whether the stop sources were triggered.
pub record Group (E : Type 0) : Type 0 where
  pub tasks : List TaskState
  pub first_error : Option E
  pub children_stop : Bool
  pub parent_stop : Bool

-- How `run_all` ends: stopped, or with the first error, if any.
pub data Ending (E : Type 0) : Type 0 where
  with_stopped : Ending E
  returned : Option E → Ending E

module _ {E : Type 0} where
  abbrev pub with_tasks : Group E → List TaskState → Group E
  with_tasks g tasks = record g { tasks = tasks }

  -- All tasks are spawned; the caller may have been stopped before.
  unfoldable pub spawn_all : List TaskState → Bool → Group E
  spawn_all tasks parent_stop = record {
    tasks = map (λ t. running) tasks;
    first_error = none;
    children_stop = parent_stop;
    parent_stop = parent_stop;
  }

  -- The function given to `upon_error`.
  unfoldable pub on_error : SiblingPolicy → Group E → E → Group E
  on_error policy g error = record g {
    first_error = or_else g.first_error (some error);
    children_stop = g.children_stop || stops_siblings policy;
  }

  unfoldable pub forward_parent_stop : Group E → Group E
  forward_parent_stop g = record g { parent_stop = true; children_stop = true }

  -- Behind `scope.join()`.
  unfoldable pub ending : Group E → Ending E
  ending g = elim g.first_error [
    | none ↦ if g.parent_stop then with_stopped else returned none
    | some e ↦ returned (some e)
  ]

  -- `run_all` as it starts: the group that it spawns, under the policy of the caller.
  unfoldable pub run_all : List TaskState → SiblingPolicy → Bool → SiblingPolicy × Group E
  unfolding spawn_all
  run_all tasks policy stop_requested = (policy, spawn_all tasks stop_requested)

  unfoldable pub join_all : List TaskState → Bool → SiblingPolicy × Group E
  unfolding run_all
  join_all tasks stop_requested = run_all tasks stop_on_error stop_requested

  unfoldable pub gather_all : List TaskState → Bool → SiblingPolicy × Group E
  unfolding run_all
  gather_all tasks stop_requested = run_all tasks run_to_completion stop_requested

  -- `join_all` and `gather_all` rethrow the error.
  unfoldable pub rethrown : Ending E → Option E
  rethrown with_stopped = none
  rethrown (returned e) = e

  -- A step, with the error that it reports, if any. A task is only stopped by a stop request.
  pub data Happens (policy : SiblingPolicy) : Group E → List E → Group E → Type 0 where
    succeeds :
        (g : Group E) (front back : List TaskState)
        → g.tasks ≡ front ++ (running ∷ back)
        → Happens policy g [] (with_tasks g (front ++ (succeeded ∷ back)))
    fails :
        (g : Group E) (front back : List TaskState) (error : E)
        → g.tasks ≡ front ++ (running ∷ back)
        → Happens policy g
            (error ∷ [])
            (on_error policy (with_tasks g (front ++ (failed ∷ back))) error)
    stops :
        (g : Group E) (front back : List TaskState)
        → g.tasks ≡ front ++ (running ∷ back)
        → g.children_stop ≡ true
        → Happens policy g [] (with_tasks g (front ++ (stopped ∷ back)))
    caller_stops : (g : Group E) → Happens policy g [] (forward_parent_stop g)

  -- Steps one after the other, with the errors in the order of completion.
  pub data Run (policy : SiblingPolicy) : Group E → List E → Group E → Type 0 where
    spawned : (g : Group E) → Run policy g [] g
    later :
        (g h k : Group E) (es fs : List E)
        → Run policy g es h
        → Happens policy h fs k
        → Run policy g (es ++ fs) k

-- How a call goes on: steps under its policy from the group that it spawned.
abbrev pub RunOf : {E : Type 0} → SiblingPolicy × Group E → List E → Group E → Type 0
RunOf call es g = Run call.0 call.1 es g
