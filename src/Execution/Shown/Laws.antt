-- ===== src/Execution/Shown/Laws.antt =====
-- What the rows of the commands show after an execution.
use cocktail_maker.Prelude.{
  ℕ, zero, suc, ◌≤◌, ◌≡◌, inl, inr, refl, ◌∙◌, List, [], ◌∷◌, Option, none, some, true, ◌==◌, ℕ_eq,
  if◌then◌else◌, arith, Bool-cases,
}
use cocktail_maker.Prelude.Members.{has}
use cocktail_maker.Recipe.{leaves, Recipe, assign_unique_command_ids}
use cocktail_maker.Recipe.Ids.{ids, count_from, numbered, ids-assign_unique_command_ids}
use cocktail_maker.Recipe.View.{UiCommand, UiCommandStatus, shown_in_progress, shown_finished}
use cocktail_maker.Execution.{CommandStatus, StatusChange, Executed}
use cocktail_maker.Execution.Order.{changes_of, AllDistinct, Executed-Stage}
use cocktail_maker.Execution.Shown.{ui_status, update_command_status, update_all}

-- The status that the row of a command shows, where it has one.
abbrev pub status_of : ℕ → List UiCommand → Option UiCommandStatus
status_of i [] = none
status_of i (cmd ∷ rows) = if cmd.id == i then some cmd.status else status_of i rows

-- A status in place of the one that is shown, if any.
abbrev pub replace : UiCommandStatus → Option UiCommandStatus → Option UiCommandStatus
replace s none = none
replace s (some old) = some s

status_of-update :
    (i : ℕ) (rows : List UiCommand) (change : StatusChange)
    → status_of i (update_command_status rows change) ≡ (
        if change.id == i
        then replace (ui_status change.status) (status_of i rows)
        else status_of i rows)
unfolding update_command_status
status_of-update i [] change = ground arith
status_of-update i (cmd ∷ rows) change = ground (
  arith,
  status_of-update i rows change,
  ℕ_eq.equal_iff cmd.id change.id,
  ℕ_eq.equal_iff cmd.id i,
  ℕ_eq.equal_iff change.id i,
)

-- The statuses that are shown one after the other.
abbrev replace_all : List CommandStatus → Option UiCommandStatus → Option UiCommandStatus
replace_all [] o = o
replace_all (s ∷ l) o = replace_all l (replace (ui_status s) o)

status_of-update_all :
    (i : ℕ) (es : List StatusChange) (rows : List UiCommand)
    → status_of i (update_all rows es) ≡ replace_all (changes_of i es) (status_of i rows)
unfolding update_all
status_of-update_all i [] rows = refl
status_of-update_all i (e ∷ es) rows = elim (Bool-cases (e.id == i)) [
  | inl same ↦
      status_of-update_all i es (update_command_status rows e)
      ∙ rw (status_of-update i rows e, same) refl
  | inr other ↦
      status_of-update_all i es (update_command_status rows e)
      ∙ rw (status_of-update i rows e, other) refl
]

replace_twice :
    (s t : UiCommandStatus) (o : Option UiCommandStatus) → replace t (replace s o) ≡ replace t o
replace_twice s t none = refl
replace_twice s t (some x) = refl

has-count_from : (i n k : ℕ) → has i (count_from n k) ≡ true → n ≤ i
has-count_from i n zero h = cc
has-count_from i n (suc k) h = elim (Bool-cases (n == i)) [
  | inl same ↦ ground (arith, same)
  | inr other ↦
      let up : suc n ≤ i = has-count_from i (suc n) k (ground (arith, other, h)) in omega arith
]

count_from-AllDistinct : (n k : ℕ) → AllDistinct (count_from n k)
count_from-AllDistinct n zero = tt
count_from-AllDistinct n (suc k) = (
  elim (Bool-cases (has n (count_from (suc n) k))) [
    | inr absent ↦ absent
    | inl there ↦ let up : suc n ≤ n = has-count_from n (suc n) k there in absurd (omega arith)
  ],
  count_from-AllDistinct (suc n) k,
)

assigned-AllDistinct :
    {Q : Type 0} (r : Recipe Q) → AllDistinct (ids (leaves (assign_unique_command_ids r).commands))
assigned-AllDistinct r =
    rw (ids-assign_unique_command_ids r).0 (count_from-AllDistinct 1 (numbered (leaves r.commands)))

-- After an execution of a recipe with assigned ids that completes, every row of one of its
-- commands shows it as finished, and every other row shows what it showed.
pub Executed-status_of :
    {Q : Type 0} (r : Recipe Q) (es : List StatusChange) (rows : List UiCommand) (i : ℕ)
    → Executed (assign_unique_command_ids r).commands es true
    → status_of i (update_all rows es) ≡ (
        if has i (ids (leaves (assign_unique_command_ids r).commands))
        then replace shown_finished (status_of i rows)
        else status_of i rows)
unfolding ui_status
Executed-status_of r es rows i x =
    let cs = (assign_unique_command_ids r).commands in
    let stage = Executed-Stage i cs es true x (assigned-AllDistinct r) in
    status_of-update_all i es rows ∙ elim (Bool-cases (has i (ids (leaves cs)))) [
      | inl there ↦
          let full = rw there at stage in
          rw (there, full) (replace_twice shown_in_progress shown_finished (status_of i rows))
      | inr gone ↦ let silent = rw gone at stage in rw (gone, silent) refl
    ]
