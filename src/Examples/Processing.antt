-- ===== src/Examples/Processing.antt =====
-- Processing a recipe, pouring an ingredient, and the stores at the start.
use cocktail_maker.Prelude.{ℕ, ◌≡◌, ◌⊎◌, refl, true, List, [], ◌∷◌, Option, none, some, String}
use cocktail_maker.Prelude.Assoc.{find}
use cocktail_maker.Prelude.Expected.{Expected, value}
use cocktail_maker.Prelude.Int.{pos as at}
use mathlib.Core.Int.{ℤ, pos}
use cocktail_maker.Quantity.{Double, ◌⊖◌, ◌⊘◌}
use cocktail_maker.Quantity.Integers.{ℤ_double, ℤ-IsExact}
use cocktail_maker.Recipe.{Recipe, Commands, leaves, DispenseCommand}
use cocktail_maker.Recipe.View.{UiCommand}
use cocktail_maker.Mixing.Scale.{scale_recipe, scale_commands_uniformly, scale_epsilon}
use cocktail_maker.Mixing.Boost.{boost_recipe}
use cocktail_maker.Mixing.Boost.Conserved.{total_volume}
use cocktail_maker.Process.Pipeline.{prepared}
use cocktail_maker.Process.Pipeline.Laws.{prepared-total}
use cocktail_maker.Process.Runs.{
  Processing, ProcessEvent, navigated, recipe_chosen, io_thread, event_loop, stopped, completed,
  on_process_event, on_process_events, process_active_recipe, navigate, on_navigated_to, io_turn,
  ui_turn, perform, start_recipe_processing, abort_active_recipe, run_completed,
}
use cocktail_maker.Process.Runs.Laws.{is_live, IsIdle, IsExclusive, events-IsExclusive}
use cocktail_maker.Process.Runs.Settled.{settled}
use cocktail_maker.Process.Runs.Left.{left-IsIdle}
use cocktail_maker.Station.Screen.{cocktail_list_page, mix_success_page, on_navigate_to}
use cocktail_maker.Examples.Recipes.{bar_store}
use cocktail_maker.Examples.Boosting.{drink, weak, large}
use cocktail_maker.Examples.Window.{start_screen, shown_hash}
use cocktail_maker.Errors.{Exception}
use cocktail_maker.StationConfig.{Mapping}
use cocktail_maker.Pods.{PodInfo, Dispenser, pump}
use cocktail_maker.Machine.{Request}

abbrev long_drink : Recipe ℤ
long_drink = record {
  id = "long";
  display_name = "Long drink";
  description = "";
  tags = [];
  image_path = "";
  nominal_serving_volume = pos 21;
  commands = weak;
}

abbrev strong_drink : Commands ℤ
strong_drink = drink (pos 120) (pos 0) (pos 6)

prepared-total_example :
    ((Double.le ℤ_double (Double.abs ℤ_double (pos 126 ⊘ pos 21 ⊖ pos 1)) scale_epsilon ≡ true)
      × (total_volume (leaves strong_drink) ≡ pos 21))
    ⊎ (total_volume (leaves strong_drink) ≡ pos 126)
unfolding prepared scale_recipe scale_commands_uniformly boost_recipe leaves find
prepared-total_example =
    prepared-total bar_store long_drink (pos 100) (pos 126) large strong_drink ℤ-IsExact refl refl
      refl refl refl

abbrev idle_processing : Processing
idle_processing = record {
  screen = start_screen;
  runs = record {
    active_recipe_abort = none;
    aborted = [];
    running = [];
    next_run = 0;
    safe_states = 0;
  };
  io = [];
  ui = [];
}

-- A recipe is chosen and starts, and another one before the first has ended.
abbrev two_chosen : List ProcessEvent
two_chosen =
    recipe_chosen true ∷ io_thread ∷ recipe_chosen true ∷ io_thread ∷ io_thread ∷ stopped 0 ∷ []

events-IsExclusive_example :
    IsExclusive (on_process_events shown_hash idle_processing two_chosen).runs
events-IsExclusive_example =
    events-IsExclusive shown_hash two_chosen idle_processing (λ r h. absurd cc)

left-IsIdle_example : IsIdle (
    settled (
      on_process_events shown_hash
        (navigate
          (on_process_events shown_hash idle_processing (recipe_chosen true ∷ io_thread ∷ []))
          cocktail_list_page)
        (completed 0 true ∷ event_loop ∷ io_thread ∷ [])))
unfolding on_process_events on_process_event process_active_recipe navigate on_navigated_to
    on_navigate_to io_turn
left-IsIdle_example =
    left-IsIdle shown_hash (recipe_chosen true ∷ io_thread ∷ [])
      (completed 0 true ∷ event_loop ∷ io_thread ∷ []) idle_processing cocktail_list_page
      (λ r h. absurd cc) refl refl refl (tt, (tt, (tt, tt)))

-- The success of a run is shown only after the next recipe was chosen: that recipe goes on behind
-- the page of the success.
abbrev late_success : Processing
late_success = on_process_events shown_hash idle_processing (
    recipe_chosen true
    ∷ io_thread
    ∷ completed 0 true
    ∷ navigated cocktail_list_page
    ∷ recipe_chosen true
    ∷ event_loop
    ∷ io_thread
    ∷ io_thread
    ∷ [])

late_success-live :
    (late_success.screen.active_screen ≡ mix_success_page)
    × ((late_success.io ≡ []) × (is_live late_success.runs 1 ≡ true))
unfolding on_process_events on_process_event process_active_recipe navigate on_navigated_to
    on_navigate_to io_turn ui_turn perform start_recipe_processing abort_active_recipe run_completed
late_success-live = (refl, (refl, refl))

-- Rum comes from the first pump of the pod "a", which gives ten millilitres less than it should.
abbrev rum_mapping : Mapping
rum_mapping = ("rum", record { pod_id = "a"; dispenser_id = at 0 }) ∷ []

abbrev pod_a : ℕ → Option PodInfo
pod_a p = some (record { id = "a"; num_pumps = at 1; num_valves = at 0 })

abbrev short_pour : List (Request ℤ) → Dispenser → ℤ → Expected Exception ℤ
short_pour asked d v = value (pos 30)

abbrev confirmed : List (Request ℤ) → UiCommand → Option Exception
confirmed asked ui = none

abbrev rum_command : DispenseCommand ℤ
rum_command = record { id = 1; ingredient = "rum"; volume = pos 40 }

abbrev no_text : ℤ → String
no_text v = ""

-- The rest of the rum is poured as it is asked for.
abbrev refilled_pour : List (Request ℤ) → Dispenser → ℤ → Expected Exception ℤ
refilled_pour [] d v = value (pos 30)
refilled_pour (r ∷ asked) d v = value v

abbrev first_pump : Dispenser
first_pump = pump (at 0)
