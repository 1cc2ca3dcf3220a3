-- ===== src/Mixing/Boost.antt =====
-- `cocktail-maker/recipe_boost.cppm`.
mod Cases
pub mod Shape
pub mod Volumes
pub mod Conserved
pub mod Boostable
use cocktail_maker.Prelude.{
  Bool, true, false, List, [], ◌∷◌, Option, none, some, not, ◌&&◌, map, foldl, String,
  if◌then◌else◌,
}
use cocktail_maker.Quantity.{Double, ◌⊕◌, ◌⊖◌, ◌⊗◌, ◌⊘◌}
use cocktail_maker.Ingredient.{
  Ingredient, BoostCategory, fixed, boostable, reducible, IngredientStore, find_by_id,
}
use cocktail_maker.Recipe.{
  DispenseCommand, Command, monostate, manual, dispense, Step, single, parallel, Commands,
}

pub record VolumeSummary (Q : Type 0) : Type 0 where
  pub boostable_litres : Q
  pub reducible_litres : Q

pub record ScaleFactors (Q : Type 0) : Type 0 where
  pub boostable : Q
  pub reducible : Q

-- A left fold over every command of the tree.
unfoldable pub fold_commands {ℓ} :
    {Q : Type 0} {T : Type ℓ} → Commands Q → T → (T → Command Q → T) → T
fold_commands [] init fn = init
fold_commands (single c ∷ rest) init fn = fold_commands rest (fn init c) fn
fold_commands (parallel cs ∷ rest) init fn = fold_commands rest (foldl fn init cs) fn

-- The category of an ingredient; `none` where the store does not know it.
unfoldable pub category_of : IngredientStore → String → Option BoostCategory
unfolding find_by_id
category_of store id = elim (find_by_id store id) [ none ↦ none | some i ↦ some i.boost_category ]

module _ {Q : Type 0} ⦃d : Double Q⦄ (store : IngredientStore) where
  add_volume : VolumeSummary Q → Q → BoostCategory → VolumeSummary Q
  add_volume acc volume boostable = record acc { boostable_litres = acc.boostable_litres ⊕ volume }
  add_volume acc volume reducible = record acc { reducible_litres = acc.reducible_litres ⊕ volume }
  add_volume acc volume fixed = acc

  unfoldable pub accumulate_volumes : VolumeSummary Q → Command Q → VolumeSummary Q
  unfolding category_of add_volume
  accumulate_volumes acc (dispense c) = elim (category_of store c.ingredient) [
    | none ↦ acc
    | some category ↦ add_volume acc c.volume category
  ]
  accumulate_volumes acc monostate = acc
  accumulate_volumes acc (manual m) = acc

  scale_by : ScaleFactors Q → DispenseCommand Q → BoostCategory → DispenseCommand Q
  scale_by scales c boostable = record c { volume = c.volume ⊗ scales.boostable }
  scale_by scales c reducible = record c { volume = c.volume ⊗ scales.reducible }
  scale_by scales c fixed = c

  unfoldable pub scale_command : ScaleFactors Q → Command Q → Command Q
  unfolding category_of scale_by
  scale_command scales (dispense c) = elim (category_of store c.ingredient) [
    | none ↦ dispense c
    | some category ↦ dispense (scale_by scales c category)
  ]
  scale_command scales monostate = monostate
  scale_command scales (manual m) = manual m

  scale_item : ScaleFactors Q → Step Q → Step Q
  unfolding scale_command
  scale_item scales (single c) = single (scale_command scales c)
  scale_item scales (parallel cs) = parallel (map (scale_command scales) cs)

  unfoldable pub scale_commands : Commands Q → ScaleFactors Q → Commands Q
  unfolding scale_item
  scale_commands commands scales = map (scale_item scales) commands

module _ {Q : Type 0} ⦃d : Double Q⦄ where
  abbrev pub no_scaling : ScaleFactors Q
  no_scaling = record { boostable = d.unit; reducible = d.unit }

  unfoldable pub compute_scale_factors : VolumeSummary Q → Q → ScaleFactors Q
  compute_scale_factors vol p =
      let v_b = vol.boostable_litres in
      let v_r = vol.reducible_litres in
      if d.le d.nought p
      then (if d.le v_b d.nought
          then no_scaling
          else record { boostable = d.unit ⊕ p ⊗ v_r ⊘ v_b; reducible = d.unit ⊖ p })
      else if d.le v_r d.nought
      then no_scaling
      else record { boostable = d.unit ⊕ p; reducible = d.unit ⊖ p ⊗ v_b ⊘ v_r }

  abbrev pub no_volume : VolumeSummary Q
  no_volume = record { boostable_litres = d.nought; reducible_litres = d.nought }

  unfoldable pub volumes_of : IngredientStore → Commands Q → VolumeSummary Q
  unfolding fold_commands accumulate_volumes
  volumes_of store commands = fold_commands commands no_volume (accumulate_volumes store)

  -- `none` is the failed assertion.
  unfoldable pub boost_recipe : Commands Q → Q → IngredientStore → Option (Commands Q)
  unfolding volumes_of compute_scale_factors scale_commands
  boost_recipe commands boost_pct store =
      let p = boost_pct ⊘ d.hundred in
      if not (d.le (d.abs boost_pct) d.hundred)
      then none
      else if d.lt (d.abs p) d.epsilon
      then some commands
      else some
          (scale_commands store commands (compute_scale_factors (volumes_of store commands) p))

pub record BoostSummary : Type 0 where
  pub has_boostables : Bool
  pub has_reducables : Bool

mark : BoostSummary → BoostCategory → BoostSummary
mark acc boostable = record acc { has_boostables = true }
mark acc reducible = record acc { has_reducables = true }
mark acc fixed = acc

module _ {Q : Type 0} (store : IngredientStore) where
  unfoldable pub summarize_boostables : BoostSummary → Command Q → BoostSummary
  unfolding category_of mark
  summarize_boostables acc (dispense c) =
      if acc.has_boostables && acc.has_reducables
      then acc
      else elim (category_of store c.ingredient) [ none ↦ acc | some category ↦ mark acc category ]
  summarize_boostables acc monostate = acc
  summarize_boostables acc (manual m) = acc

  unfoldable pub is_recipe_boostable : Commands Q → Bool
  unfolding fold_commands summarize_boostables
  is_recipe_boostable commands =
      let found =
        fold_commands commands (record { has_boostables = false; has_reducables = false })
          summarize_boostables in
      found.has_boostables && found.has_reducables
