-- ===== src/Mixing/Scale.antt =====
-- `cocktail-maker/recipe_scale.cppm`.
pub mod Total
use cocktail_maker.Prelude.{Option, none, some, not, map, if◌then◌else◌}
use cocktail_maker.Quantity.{Double, ◌⊕◌, ◌⊖◌, ◌⊗◌, ◌⊘◌}
use cocktail_maker.Recipe.{Command, monostate, manual, dispense, Step, single, parallel, Commands}

module _ {Q : Type 0} ⦃d : Double Q⦄ where
  unfoldable pub scale_command_volume : Q → Command Q → Command Q
  scale_command_volume factor (dispense c) = dispense (record c { volume = c.volume ⊗ factor })
  scale_command_volume factor monostate = monostate
  scale_command_volume factor (manual m) = manual m

  scale_item : Q → Step Q → Step Q
  unfolding scale_command_volume
  scale_item factor (single c) = single (scale_command_volume factor c)
  scale_item factor (parallel cs) = parallel (map (scale_command_volume factor) cs)

  unfoldable pub scale_commands_uniformly : Commands Q → Q → Commands Q
  unfolding scale_item
  scale_commands_uniformly commands factor = map (scale_item factor) commands

  -- Four times `std::numeric_limits<double>::epsilon()`.
  abbrev pub scale_epsilon : Q
  scale_epsilon = d.epsilon ⊗ (d.unit ⊕ d.unit ⊕ d.unit ⊕ d.unit)

  -- `none` is a failed assertion.
  unfoldable pub scale_recipe : Commands Q → Q → Q → Option (Commands Q)
  scale_recipe commands nominal_ml target_ml =
      let factor = target_ml ⊘ nominal_ml in
      if not (d.lt d.nought nominal_ml)
      then none
      else if not (d.le d.nought target_ml)
      then none
      else if d.le (d.abs (factor ⊖ d.unit)) scale_epsilon
      then some commands
      else some (scale_commands_uniformly commands factor)
