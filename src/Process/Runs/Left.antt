-- ===== src/Process/Runs/Left.antt =====
-- What becomes of a run when the page of the mixing is left.
use cocktail_maker.Prelude.{
  ℕ, ◌≡◌, ◌∙◌, sym, ap, ap₂, subst, if◌then◌else◌, inl, inr, Bool, true, false, not, ◌&&◌, List, [],
  ◌∷◌, ℕ_eq, String, arith, Bool-cases, All,
}
use cocktail_maker.Prelude.Members.{has}
use cocktail_maker.OperatorAuth.{verify}
use cocktail_maker.Station.Screen.{Page, is_admin, admin_area_page}
use cocktail_maker.Process.Runs.{
  IoTask, Processing, is_mix, is_success, abort_active_recipe, on_navigated_to, navigate,
  process_active_recipe, on_abort, io_turn, ui_turn, run_stopped, run_completed, submit_pin,
  ProcessEvent, navigated, pin_submitted, recipe_chosen, abort_pressed, io_thread, event_loop,
  stopped, completed, on_process_event, on_process_events,
}
use cocktail_maker.Process.Runs.Laws.{
  IsIdle, IsExclusive, abort-IsIdle, events-IsExclusive, submit_pin-runs,
}
use cocktail_maker.Process.Runs.Settled.{
  run_posted, settled, run_posted-IsExclusive, fewer-IsIdle, leaves, settled-called, called-runs,
  settled-navigate, aborted-IsIdle, navigate-IsIdle,
}

-- Events that choose no recipe.
abbrev pub ChoosesNone : ProcessEvent → Type 0
ChoosesNone (recipe_chosen true) = ⊥
ChoosesNone _ = Unit

-- Leaving the page of the mixing for another page than that of a success.
leaves-IsIdle :
    (p : Processing) (to : Page)
    → IsExclusive p.runs
    → is_mix p.screen.active_screen ≡ true
    → is_success to ≡ false
    → (is_admin to && not p.screen.operator_authenticated) ≡ false
    → IsIdle (settled (navigate p to))
leaves-IsIdle p to f here other allowed =
    let gone : leaves p.screen.active_screen to ≡ true = ground (arith, here, other) in
    let e : settled (navigate p to) ≡ abort_active_recipe (settled p) =
      settled-navigate p to allowed
      ∙ ap (λ b. if b then abort_active_recipe (settled p) else settled p) gone in
    subst IsIdle (sym e) (abort-IsIdle (settled p) (run_posted-IsExclusive p.io p.runs f))

module _ (hash_pin : String → String → String) where
  submit_pin-io :
      (p : Processing) (pin : String) (now : ℕ)
      → (submit_pin hash_pin p pin now).io ≡ (
          if (verify hash_pin p.screen.operator_auth pin now).1
          then (on_navigated_to p p.screen.active_screen admin_area_page).io
          else p.io)
  unfolding submit_pin on_navigated_to
  submit_pin-io p pin now = ground arith

  pin-IsIdle :
      (p : Processing) (pin : String) (now : ℕ)
      → IsIdle (settled p)
      → IsIdle (settled (submit_pin hash_pin p pin now))
  pin-IsIdle p pin now idle =
      subst IsIdle
        (sym (ap₂ run_posted (submit_pin-io p pin now) (submit_pin-runs hash_pin p pin now)))
        (go (verify hash_pin p.screen.operator_auth pin now).1)
    where
      from : Page
      from = p.screen.active_screen

      go :
          (b : Bool)
          → IsIdle
              (run_posted (if b then (on_navigated_to p from admin_area_page).io else p.io) p.runs)
      go true =
          subst IsIdle
            (sym (
              ap (λ r. run_posted (on_navigated_to p from admin_area_page).io r)
                (sym (called-runs p from admin_area_page))
              ∙ settled-called p from admin_area_page))
            (aborted-IsIdle (leaves from admin_area_page) (settled p) idle)
      go false = idle

  event-IsIdle :
      (p : Processing) (e : ProcessEvent)
      → ChoosesNone e
      → IsIdle (settled p)
      → IsIdle (settled (on_process_event hash_pin p e))
  unfolding on_process_event process_active_recipe on_abort io_turn ui_turn run_stopped
      run_completed
  event-IsIdle p (navigated page) c idle = navigate-IsIdle p page idle
  event-IsIdle p (pin_submitted pin now) c idle = pin-IsIdle p pin now idle
  event-IsIdle p (recipe_chosen true) c idle = absurd c
  event-IsIdle p (recipe_chosen false) c idle = idle
  event-IsIdle p abort_pressed c idle = idle
  event-IsIdle p io_thread c idle = go p.io idle
    where
      go :
          (tasks : List IoTask)
          → IsIdle (run_posted tasks p.runs)
          → IsIdle (settled (io_turn (record p { io = tasks })))
      go [] h = h
      go (task ∷ rest) h = h
  event-IsIdle p event_loop c idle = go p.ui
    where
      go : (pages : List Page) → IsIdle (settled (ui_turn (record p { ui = pages })))
      go [] = idle
      go (page ∷ rest) = navigate-IsIdle (record p { ui = rest }) page idle
  event-IsIdle p (stopped run) c idle =
      elim (Bool-cases (has run p.runs.running && has run p.runs.aborted)) [
        | inl ends ↦ rw (run_stopped, ends) (fewer-IsIdle p.io p.runs run _ idle)
        | inr other ↦ rw (run_stopped, other) idle
      ]
  event-IsIdle p (completed run success) c idle = elim (Bool-cases (has run p.runs.running)) [
    | inl ends ↦ rw (run_completed, ends) (fewer-IsIdle p.io p.runs run _ idle)
    | inr other ↦ rw (run_completed, other) idle
  ]

  events-IsIdle :
      (events : List ProcessEvent) (p : Processing)
      → All ChoosesNone events
      → IsIdle (settled p)
      → IsIdle (settled (on_process_events hash_pin p events))
  unfolding on_process_events
  events-IsIdle [] p c idle = idle
  events-IsIdle (e ∷ events) p c idle =
      events-IsIdle events (on_process_event hash_pin p e) c.1 (event-IsIdle p e c.0 idle)

  -- Where, after any events, the window navigates from the page of the mixing to a page other than
  -- that of a success, and is not denied, then after any further events that choose no known recipe,
  -- once the io thread has run what was posted, no run goes on without being aborted.
  pub left-IsIdle :
      (before after : List ProcessEvent) (p : Processing) (to : Page)
      → IsExclusive p.runs
      → let q = on_process_events hash_pin p before in
        is_mix q.screen.active_screen ≡ true
        → is_success to ≡ false
        → (is_admin to && not q.screen.operator_authenticated) ≡ false
        → All ChoosesNone after
        → IsIdle (settled (on_process_events hash_pin (navigate q to) after))
  left-IsIdle before after p to f here other allowed c =
      let q = on_process_events hash_pin p before in
      events-IsIdle after (navigate q to) c
        (leaves-IsIdle q to (events-IsExclusive hash_pin before p f) here other allowed)
