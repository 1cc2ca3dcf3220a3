-- ===== src/Process/Runs.antt =====
-- Starting and aborting a recipe: `init`, `start_recipe_processing` and `abort_active_recipe` of
-- `gui/src/process_context_bridge.cpp`. A run of `async_process_recipe` is a number. What the callbacks
-- post to the io thread and what is handed to the event loop of the user interface are two queues, each
-- run from the front, in any interleaving with what the user does.
pub mod Laws
pub mod Settled
pub mod Left
use cocktail_maker.Prelude.{
  ℕ, suc, Bool, true, false, not, ◌&&◌, List, [], ◌∷◌, ◌++◌, Option, none, some, String,
  if◌then◌else◌,
}
use cocktail_maker.Prelude.Members.{has, without}
use cocktail_maker.OperatorAuth.{verify}
use cocktail_maker.Station.Screen.{
  Screen, Page, mix_page, mix_success_page, mix_error_page, admin_area_page, is_admin,
  on_navigate_to, on_submit_operator_pin,
}

-- What only the io thread touches: `running` are the runs that have not ended, `aborted` those whose flag
-- is set; `safe_states` counts the calls of `force_safe_state_all_pods`.
pub record Runs : Type 0 where
  pub active_recipe_abort : Option ℕ
  pub aborted : List ℕ
  pub running : List ℕ
  pub next_run : ℕ
  pub safe_states : ℕ

-- A closure posted to the io thread.
pub data IoTask : Type 0 where
  start_task : IoTask
  abort_task : IoTask

-- `io` is the queue of the io thread, and `ui` holds the pages that closures of the event loop navigate to.
pub record Processing : Type 0 where
  pub screen : Screen
  pub runs : Runs
  pub io : List IoTask
  pub ui : List Page

abbrev pub is_mix : Page → Bool
is_mix mix_page = true
is_mix _ = false

abbrev pub is_success : Page → Bool
is_success mix_success_page = true
is_success _ = false

unfoldable pub abort_active_recipe : Runs → Runs
abort_active_recipe r = elim r.active_recipe_abort [
  | none ↦ r
  | some run ↦ record r { aborted = run ∷ r.aborted; active_recipe_abort = none }
]

unfoldable pub start_recipe_processing : Runs → Runs
unfolding abort_active_recipe
start_recipe_processing r =
    let q = abort_active_recipe r in
    record q {
      active_recipe_abort = some q.next_run;
      running = q.next_run ∷ q.running;
      next_run = suc q.next_run;
    }

unfoldable pub perform : IoTask → Runs → Runs
unfolding start_recipe_processing abort_active_recipe
perform start_task r = start_recipe_processing r
perform abort_task r = abort_active_recipe r

abbrev pub post : Processing → IoTask → Processing
post p task = record p { io = p.io ++ (task ∷ []) }

-- `display_ui_success` and `display_ui_error`
abbrev pub show_page : Processing → Page → Processing
show_page p page = record p { ui = p.ui ++ (page ∷ []) }

-- The callback `navigated_to`.
unfoldable pub on_navigated_to : Processing → Page → Page → Processing
on_navigated_to p from to = if is_mix from && not (is_success to) then post p abort_task else p

-- `navigate_to` of the window: a navigation that is not denied calls back.
unfoldable pub navigate : Processing → Page → Processing
unfolding on_navigate_to on_navigated_to
navigate p to =
    let moved : Processing = record p { screen = on_navigate_to p.screen to } in
    let called = on_navigated_to moved p.screen.active_screen to in
    if is_admin to && not p.screen.operator_authenticated then p else called

-- The callback `process_active_recipe`; whether the store has the recipe is given.
unfoldable pub process_active_recipe : Processing → Bool → Processing
unfolding navigate
process_active_recipe p found =
    if found then post (navigate p mix_page) start_task else show_page p mix_error_page

-- The callback `abort`.
unfoldable pub on_abort : Processing → Processing
on_abort p = show_page p mix_error_page

-- The next closure of the io thread, and of the event loop.
unfoldable pub io_turn : Processing → Processing
unfolding perform
io_turn p = elim p.io [ [] ↦ p | task ∷ rest ↦ record p { runs = perform task p.runs; io = rest } ]

unfoldable pub ui_turn : Processing → Processing
unfolding navigate
ui_turn p = elim p.ui [ [] ↦ p | page ∷ rest ↦ navigate (record p { ui = rest }) page ]

-- A run that goes on is stopped by its flag, which ends in `force_safe_state_all_pods`.
unfoldable pub run_stopped : Processing → ℕ → Processing
run_stopped p run =
    let r = p.runs in
    if has run r.running && has run r.aborted
    then record p {
      runs = record r { running = without run r.running; safe_states = suc r.safe_states };
    }
    else p

-- A run ends by itself, which may be after its flag was set, and has its result shown.
unfoldable pub run_completed : Processing → ℕ → Bool → Processing
run_completed p run success =
    let r = p.runs in
    let ended : Processing = record p { runs = record r { running = without run r.running } } in
    if has run r.running
    then show_page ended (if success then mix_success_page else mix_error_page)
    else p

pub data ProcessEvent : Type 0 where
  navigated : Page → ProcessEvent
  pin_submitted : String → ℕ → ProcessEvent
  recipe_chosen : Bool → ProcessEvent
  abort_pressed : ProcessEvent
  io_thread : ProcessEvent
  event_loop : ProcessEvent
  stopped : ℕ → ProcessEvent
  completed : ℕ → Bool → ProcessEvent

module _ (hash_pin : String → String → String) where
  -- The entry of a PIN, which navigates to the admin area where the PIN is accepted.
  unfoldable pub submit_pin : Processing → String → ℕ → Processing
  unfolding on_submit_operator_pin verify on_navigated_to
  submit_pin p pin now =
      let shown : Processing = record p {
        screen = on_submit_operator_pin hash_pin p.screen pin now;
      } in
      if (verify hash_pin p.screen.operator_auth pin now).1
      then on_navigated_to shown p.screen.active_screen admin_area_page
      else shown

  unfoldable pub on_process_event : Processing → ProcessEvent → Processing
  unfolding navigate submit_pin process_active_recipe on_abort io_turn ui_turn run_stopped
      run_completed
  on_process_event p (navigated page) = navigate p page
  on_process_event p (pin_submitted pin now) = submit_pin p pin now
  on_process_event p (recipe_chosen found) = process_active_recipe p found
  on_process_event p abort_pressed = on_abort p
  on_process_event p io_thread = io_turn p
  on_process_event p event_loop = ui_turn p
  on_process_event p (stopped run) = run_stopped p run
  on_process_event p (completed run success) = run_completed p run success

  unfoldable pub on_process_events : Processing → List ProcessEvent → Processing
  unfolding on_process_event
  on_process_events p [] = p
  on_process_events p (event ∷ events) = on_process_events (on_process_event p event) events
