-- ===== src/Process/Runs/Settled.antt =====
-- What is left once the io thread has run what was posted.
use cocktail_maker.Prelude.{
  ℕ, suc, ◌≡◌, ◌∙◌, sym, ap, ap₂, subst, Option, if◌then◌else◌, inl, inr, refl, Bool, true, false,
  not, ◌&&◌, List, [], ◌∷◌, ◌++◌, none, some, ℕ_eq, arith, Bool-cases,
}
use cocktail_maker.Prelude.Members.{has, without, has-without}
use cocktail_maker.Station.Screen.{Page, is_admin}
use cocktail_maker.Process.Runs.{
  Runs, IoTask, start_task, abort_task, Processing, is_mix, is_success, abort_active_recipe,
  start_recipe_processing, perform, on_navigated_to, navigate,
}
use cocktail_maker.Process.Runs.Laws.{
  is_live, IsIdle, IsExclusive, IsIdle-abort_active_recipe, perform-IsExclusive, navigate-runs,
}

-- The runs once the io thread has run what was posted so far.
abbrev pub run_posted : List IoTask → Runs → Runs
run_posted [] r = r
run_posted (task ∷ tasks) r = run_posted tasks (perform task r)

abbrev pub settled : Processing → Runs
settled p = run_posted p.io p.runs

run_posted-append :
    (tasks : List IoTask) (task : IoTask) (r : Runs)
    → run_posted (tasks ++ (task ∷ [])) r ≡ perform task (run_posted tasks r)
run_posted-append [] task r = refl
run_posted-append (t ∷ tasks) task r = run_posted-append tasks task (perform t r)

pub run_posted-IsExclusive :
    (tasks : List IoTask) (r : Runs) → IsExclusive r → IsExclusive (run_posted tasks r)
run_posted-IsExclusive [] r f = f
run_posted-IsExclusive (t ∷ tasks) r f =
    run_posted-IsExclusive tasks (perform t r) (perform-IsExclusive t r f)

-- The runs with other running ones.
abbrev with_running : Runs → List ℕ → ℕ → Runs
with_running r l n = record r { running = l; safe_states = n }

abort-with_running :
    (active : Option ℕ) (aborted running l : List ℕ) (next safe n : ℕ)
    → let r : Runs = record {
      active_recipe_abort = active;
      aborted = aborted;
      running = running;
      next_run = next;
      safe_states = safe;
    } in
      (abort_active_recipe (with_running r l n) ≡ with_running (abort_active_recipe r) l n)
      × ((abort_active_recipe r).running ≡ r.running)
unfolding abort_active_recipe
abort-with_running none aborted running l next safe n = (refl, refl)
abort-with_running (some a) aborted running l next safe n = (refl, refl)

abbrev Within : List ℕ → List ℕ → Type 0
Within l m = (x : ℕ) → has x l ≡ true → has x m ≡ true

perform-with_running :
    (task : IoTask) (r : Runs) (l : List ℕ) (n : ℕ)
    → Within l r.running
    → (m : List ℕ) × ((perform task (with_running r l n) ≡ with_running (perform task r) m n)
        × Within m (perform task r).running)
unfolding perform start_recipe_processing
perform-with_running abort_task r l n sub =
    let (e, same) =
      abort-with_running r.active_recipe_abort r.aborted r.running l r.next_run r.safe_states n in
    (l, (e, λ x h. ap (λ k. has x k) same ∙ sub x h))
perform-with_running start_task r l n sub =
    let (e, same) =
      abort-with_running r.active_recipe_abort r.aborted r.running l r.next_run r.safe_states n in
    let q = abort_active_recipe r in
    (
      q.next_run ∷ l,
      (
        ap
            (λ (q : Runs). record q {
              active_recipe_abort = some q.next_run;
              running = q.next_run ∷ q.running;
              next_run = suc q.next_run;
            })
            e,
        λ x h. ground (arith, h, sub x, ap (λ k. has x k) same),
      ),
    )

-- With some of the running runs ended, no more of them are live after what was posted.
fewer :
    (tasks : List IoTask) (r : Runs) (l : List ℕ) (n run : ℕ)
    → Within l r.running
    → is_live (run_posted tasks (with_running r l n)) run ≡ true
    → is_live (run_posted tasks r) run ≡ true
fewer [] r l n run sub live = ground (arith, sub run, live)
fewer (t ∷ tasks) r l n run sub live =
    let (m, (e, sub')) = perform-with_running t r l n sub in
    fewer tasks (perform t r) m n run sub'
      (subst (λ q. is_live (run_posted tasks q) run ≡ true) e live)

pub fewer-IsIdle :
    (tasks : List IoTask) (r : Runs) (run n : ℕ)
    → IsIdle (run_posted tasks r)
    → IsIdle (run_posted tasks (record r { running = without run r.running; safe_states = n }))
fewer-IsIdle tasks r run n idle x = elim (Bool-cases (is_live (run_posted tasks ended) x)) [
  | inr over ↦ over
  | inl live ↦ absurd (
      ground (
        arith,
        idle x,
        fewer tasks r (without run r.running) n x
            (λ y h. ground (arith, h, has-without y run r.running)) live,
      ))
]
  where
    ended : Runs
    ended = record r { running = without run r.running; safe_states = n }

-- The callback of a navigation posts an abort or nothing.
abbrev pub leaves : Page → Page → Bool
leaves from to = is_mix from && not (is_success to)

pub settled-called :
    (p : Processing) (from to : Page)
    → settled (on_navigated_to p from to)
      ≡ (if leaves from to then abort_active_recipe (settled p) else settled p)
unfolding on_navigated_to perform
settled-called p from to = elim (Bool-cases (leaves from to)) [
  | inl gone ↦ rw (on_navigated_to, gone) (run_posted-append p.io abort_task p.runs)
  | inr stays ↦ rw (on_navigated_to, stays) refl
]

navigate-io :
    (p : Processing) (to : Page)
    → (is_admin to && not p.screen.operator_authenticated) ≡ false
    → (navigate p to).io ≡ (on_navigated_to p p.screen.active_screen to).io
unfolding navigate on_navigated_to
navigate-io p to allowed = ground (arith, allowed)

navigate_denied-io :
    (p : Processing) (to : Page)
    → (is_admin to && not p.screen.operator_authenticated) ≡ true
    → (navigate p to).io ≡ p.io
unfolding navigate
navigate_denied-io p to denied = ground (arith, denied)

pub called-runs : (p : Processing) (from to : Page) → (on_navigated_to p from to).runs ≡ p.runs
unfolding on_navigated_to
called-runs p from to = ground arith

pub settled-navigate :
    (p : Processing) (to : Page)
    → (is_admin to && not p.screen.operator_authenticated) ≡ false
    → settled (navigate p to)
      ≡ (if leaves p.screen.active_screen to then abort_active_recipe (settled p) else settled p)
settled-navigate p to allowed =
    ap₂ run_posted (navigate-io p to allowed)
      (navigate-runs p to ∙ sym (called-runs p p.screen.active_screen to))
    ∙ settled-called p p.screen.active_screen to

pub aborted-IsIdle :
    (b : Bool) (r : Runs) → IsIdle r → IsIdle (if b then abort_active_recipe r else r)
aborted-IsIdle true r idle = IsIdle-abort_active_recipe r idle
aborted-IsIdle false r idle = idle

pub navigate-IsIdle :
    (p : Processing) (to : Page) → IsIdle (settled p) → IsIdle (settled (navigate p to))
navigate-IsIdle p to idle = elim (Bool-cases (is_admin to && not p.screen.operator_authenticated)) [
  | inl denied ↦
      subst IsIdle (sym (ap₂ run_posted (navigate_denied-io p to denied) (navigate-runs p to))) idle
  | inr allowed ↦
      subst IsIdle (sym (settled-navigate p to allowed))
        (aborted-IsIdle (leaves p.screen.active_screen to) (settled p) idle)
]
