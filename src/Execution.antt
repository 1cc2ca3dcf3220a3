-- ===== src/Execution.antt =====
-- `execute_commands` of `cocktail-maker/execute_recipe.cpp`: the changes of the command status that an
-- execution makes, in order. A command that throws or is stopped leaves the rest of the recipe out.
pub mod Order
pub mod Shown
use cocktail_maker.Prelude.{ℕ, List, [], ◌∷◌, ◌++◌, Bool, true, false, ◌&&◌}
use cocktail_maker.Recipe.{
  Command, monostate, manual, dispense, ManualCommand, DispenseCommand, Commands, single, parallel,
}

pub data CommandStatus : Type 0 where
  unknown : CommandStatus
  in_progress : CommandStatus
  finished : CommandStatus

-- A call of `update_command_status`.
pub record StatusChange : Type 0 where
  pub id : ℕ
  pub status : CommandStatus

abbrev pub begins : ℕ → StatusChange
begins id = record { id = id; status = in_progress }

abbrev pub ends : ℕ → StatusChange
ends id = record { id = id; status = finished }

-- `process_command`: the changes, and whether the task completed. A child of a group that is stopped may
-- not have started.
pub data Processed {Q : Type 0} : Command Q → List StatusChange → Bool → Type 0 where
  nothing_to_do : Processed monostate [] true
  manual_done : (m : ManualCommand) → Processed (manual m) (begins m.id ∷ ends m.id ∷ []) true
  manual_failed : (m : ManualCommand) → Processed (manual m) (begins m.id ∷ []) false
  dispense_done :
      (d : DispenseCommand Q) → Processed (dispense d) (begins d.id ∷ ends d.id ∷ []) true
  dispense_failed : (d : DispenseCommand Q) → Processed (dispense d) (begins d.id ∷ []) false
  not_started : (c : Command Q) → Processed c [] false

-- The interleavings of two sequences.
pub data Interleaved : List StatusChange → List StatusChange → List StatusChange → Type 0 where
  both_over : Interleaved [] [] []
  left_next :
      (e : StatusChange) (es fs gs : List StatusChange)
      → Interleaved es fs gs
      → Interleaved (e ∷ es) fs (e ∷ gs)
  right_next :
      (f : StatusChange) (es fs gs : List StatusChange)
      → Interleaved es fs gs
      → Interleaved es (f ∷ fs) (f ∷ gs)

-- The children of a parallel group, joined: the group completed if all of them did.
pub data Joined {Q : Type 0} : List (Command Q) → List StatusChange → Bool → Type 0 where
  no_child : Joined [] [] true
  one_more :
      (c : Command Q) (cs : List (Command Q)) (es fs gs : List StatusChange) (done rest_done : Bool)
      → Processed c es done
      → Joined cs fs rest_done
      → Interleaved es fs gs
      → Joined (c ∷ cs) gs (done && rest_done)

-- The loop over the steps.
pub data Executed {Q : Type 0} : Commands Q → List StatusChange → Bool → Type 0 where
  all_over : Executed [] [] true
  single_done :
      (c : Command Q) (rest : Commands Q) (es fs : List StatusChange) (done : Bool)
      → Processed c es true
      → Executed rest fs done
      → Executed (single c ∷ rest) (es ++ fs) done
  single_failed :
      (c : Command Q) (rest : Commands Q) (es : List StatusChange)
      → Processed c es false
      → Executed (single c ∷ rest) es false
  group_done :
      (cs : List (Command Q)) (rest : Commands Q) (es fs : List StatusChange) (done : Bool)
      → Joined cs es true
      → Executed rest fs done
      → Executed (parallel cs ∷ rest) (es ++ fs) done
  group_failed :
      (cs : List (Command Q)) (rest : Commands Q) (es : List StatusChange)
      → Joined cs es false
      → Executed (parallel cs ∷ rest) es false
