-- ===== src/Process/Runs/Laws.antt =====
-- Which runs are live: one at most.
use cocktail_maker.Prelude.{
  ℕ, ◌≡◌, ◌∙◌, sym, ap, inl, inr, refl, Bool, true, false, not, ◌&&◌, List, [], ◌∷◌, some, ℕ_eq,
  String, arith, Bool-cases, Option-cases, some-injective,
}
use cocktail_maker.Prelude.Members.{has, without, has-without}
use cocktail_maker.Station.Screen.{Page, mix_page}
use cocktail_maker.Process.Runs.{
  Runs, IoTask, start_task, abort_task, Processing, abort_active_recipe, start_recipe_processing,
  perform, on_navigated_to, navigate, process_active_recipe, on_abort, io_turn, ui_turn,
  run_stopped, run_completed, submit_pin, ProcessEvent, navigated, pin_submitted, recipe_chosen,
  abort_pressed, io_thread, event_loop, stopped, completed, on_process_event, on_process_events,
}

-- The run goes on and is not aborted.
abbrev pub is_live : Runs → ℕ → Bool
is_live r run = has run r.running && not (has run r.aborted)

abbrev pub IsIdle : Runs → Type 0
IsIdle r = (run : ℕ) → is_live r run ≡ false

-- Only the active run is live.
abbrev pub IsExclusive : Runs → Type 0
IsExclusive r = (run : ℕ) → is_live r run ≡ true → r.active_recipe_abort ≡ some run

idle-IsExclusive : (r : Runs) → IsIdle r → IsExclusive r
idle-IsExclusive r idle run live = absurd (ground (arith, live, idle run))

pub abort-IsIdle : (r : Runs) → IsExclusive r → IsIdle (abort_active_recipe r)
unfolding abort_active_recipe
abort-IsIdle r f run = elim (Option-cases r.active_recipe_abort) [
  | inl none_active ↦ elim (Bool-cases (is_live r run)) [
    | inl live ↦ absurd (ground (arith, f run live, none_active))
    | inr ended ↦ rw (abort_active_recipe, none_active) ended
  ]
  | inr (a, active) ↦ elim (Bool-cases (is_live r run)) [
    | inl live ↦
        let e : a ≡ run = some-injective a run (sym active ∙ f run live) in
        rw (abort_active_recipe, active, (ℕ_eq.equal_iff a run).1 e) (ground arith)
    | inr ended ↦ rw (abort_active_recipe, active) (ground (arith, ended))
  ]
]

pub IsIdle-abort_active_recipe : (r : Runs) → IsIdle r → IsIdle (abort_active_recipe r)
IsIdle-abort_active_recipe r idle = abort-IsIdle r (idle-IsExclusive r idle)

start-IsExclusive : (r : Runs) → IsExclusive r → IsExclusive (start_recipe_processing r)
unfolding start_recipe_processing
start-IsExclusive r f run live =
    let q = abort_active_recipe r in
    let idle = abort-IsIdle r f run in
    let same : q.next_run ≡ run = ground (arith, idle, live, ℕ_eq.equal_iff q.next_run run) in
    ap (λ n. some n) same

pub perform-IsExclusive : (task : IoTask) (r : Runs) → IsExclusive r → IsExclusive (perform task r)
unfolding perform
perform-IsExclusive abort_task r f = idle-IsExclusive (abort_active_recipe r) (abort-IsIdle r f)
perform-IsExclusive start_task r f = start-IsExclusive r f

-- A navigation leaves the runs as they are.
pub navigate-runs : (p : Processing) (to : Page) → (navigate p to).runs ≡ p.runs
unfolding navigate on_navigated_to
navigate-runs p to = ground arith

chosen-runs : (p : Processing) (found : Bool) → (process_active_recipe p found).runs ≡ p.runs
unfolding process_active_recipe
chosen-runs p true = navigate-runs p mix_page
chosen-runs p false = refl

without-IsExclusive :
    (p : Processing) (run : ℕ)
    → IsExclusive p.runs
    → IsExclusive (record p.runs { running = without run p.runs.running })
without-IsExclusive p run f r live = f r (ground (arith, live, has-without r run p.runs.running))

module _ (hash_pin : String → String → String) where
  pub submit_pin-runs :
      (p : Processing) (pin : String) (now : ℕ) → (submit_pin hash_pin p pin now).runs ≡ p.runs
  unfolding submit_pin on_navigated_to
  submit_pin-runs p pin now = ground arith

  event-IsExclusive :
      (p : Processing) (e : ProcessEvent)
      → IsExclusive p.runs
      → IsExclusive (on_process_event hash_pin p e).runs
  unfolding on_process_event process_active_recipe on_abort io_turn ui_turn run_stopped
      run_completed
  event-IsExclusive p (navigated page) f = rw (navigate-runs p page) f
  event-IsExclusive p (pin_submitted pin now) f = rw (submit_pin-runs p pin now) f
  event-IsExclusive p (recipe_chosen found) f = rw (chosen-runs p found) f
  event-IsExclusive p abort_pressed f = f
  event-IsExclusive p io_thread f = go p.io
    where
      go : (tasks : List IoTask) → IsExclusive (io_turn (record p { io = tasks })).runs
      go [] = f
      go (task ∷ rest) = perform-IsExclusive task p.runs f
  event-IsExclusive p event_loop f = go p.ui
    where
      go : (pages : List Page) → IsExclusive (ui_turn (record p { ui = pages })).runs
      go [] = f
      go (page ∷ rest) = rw (navigate-runs (record p { ui = rest }) page) f
  event-IsExclusive p (stopped run) f =
      elim (Bool-cases (has run p.runs.running && has run p.runs.aborted)) [
        | inl ends ↦ rw (run_stopped, ends) (without-IsExclusive p run f)
        | inr other ↦ rw (run_stopped, other) f
      ]
  event-IsExclusive p (completed run success) f = elim (Bool-cases (has run p.runs.running)) [
    | inl ends ↦ rw (run_completed, ends) (without-IsExclusive p run f)
    | inr other ↦ rw (run_completed, other) f
  ]

  -- After any events, in any interleaving of the user, the io thread and the event loop, at most one
  -- run goes on without being aborted, namely the active one.
  pub events-IsExclusive :
      (events : List ProcessEvent) (p : Processing)
      → IsExclusive p.runs
      → IsExclusive (on_process_events hash_pin p events).runs
  unfolding on_process_events
  events-IsExclusive [] p f = f
  events-IsExclusive (e ∷ events) p f =
      events-IsExclusive events (on_process_event hash_pin p e) (event-IsExclusive p e f)
