-- ===== src/Execution/Shown.antt =====
-- `MachineAdapter::update_command_status` of `gui/src/maschine_adapter.cppm`: the status changes of an
-- execution as the window shows them. The closures that are posted run in the order of the changes.
pub mod Laws
use cocktail_maker.Prelude.{List, [], ◌∷◌, ◌==◌, ℕ_eq, if◌then◌else◌}
use cocktail_maker.Recipe.View.{
  UiCommand, UiCommandStatus, not_started, shown_in_progress, shown_finished,
}
use cocktail_maker.Execution.{CommandStatus, unknown, in_progress, finished, StatusChange}

unfoldable pub ui_status : CommandStatus → UiCommandStatus
ui_status unknown = not_started
ui_status in_progress = shown_in_progress
ui_status finished = shown_finished

-- The first row with the id is set.
unfoldable pub update_command_status : List UiCommand → StatusChange → List UiCommand
unfolding ui_status
update_command_status [] change = []
update_command_status (cmd ∷ rows) change =
    let rest = update_command_status rows change in
    if cmd.id == change.id
    then record cmd { status = ui_status change.status } ∷ rows
    else cmd ∷ rest

unfoldable pub update_all : List UiCommand → List StatusChange → List UiCommand
unfolding update_command_status
update_all rows [] = rows
update_all rows (change ∷ changes) = update_all (update_command_status rows change) changes
