-- ===== src/Recipe/Context.antt =====
-- `gui/src/recipe_context_bridge.cpp`: boosting the recipe that is shown, the list of ingredients, and
-- the assignment of an ingredient to a dispenser.
pub mod Laws
use cocktail_maker.Prelude.{List, Option, none, some, String, and_then}
use cocktail_maker.Prelude.Int.{ℤ}
use cocktail_maker.Json.{Json, Builder}
use cocktail_maker.Quantity.{Double}
use cocktail_maker.Ingredient.{IngredientStore, ingredients}
use cocktail_maker.Mixing.Boost.{boost_recipe}
use cocktail_maker.StationConfig.{Mapping, update_dispenser_ingredient_mapping}
use cocktail_maker.Recipe.{RecipeStore, find_by_id}
use cocktail_maker.Recipe.View.{RecipeView, transform}

-- `set_ingredient_ids` in `init`.
unfoldable pub ingredient_ids : IngredientStore → List String
unfolding ingredients
ingredient_ids store = ingredients store

module _ {Q : Type 0} ⦃d : Double Q⦄ {Image : Type 0} (show_volume : Q → String)
    (store : IngredientStore) (upper : String → String) (load_from_path : String → Image)
    (recipes : RecipeStore Q) where
  -- The recipe that is shown afterwards; `none` is the failed assertion of `boost_recipe`.
  unfoldable pub boost_recipe_callback : RecipeView Image → Q → Option (RecipeView Image)
  unfolding find_by_id boost_recipe transform
  boost_recipe_callback active boost = elim (find_by_id recipes active.id) [
    | none ↦ some active
    | some recipe ↦ elim (boost_recipe recipe.commands boost store) [
      | none ↦ none
      | some boosted ↦
          some (
            transform show_volume store upper load_from_path (record recipe { commands = boosted }))
    ]
  ]

-- The closure that `assign_ingredient_to_dispenser` posts.
module _ {ℓ} {Q : Type ℓ} (json : Json Q) (builder : Builder json) {Disk : Type 0}
    (write_file : json.Node → Disk → Disk) (store : IngredientStore) where
  unfoldable pub assign_ingredient_to_dispenser :
      Mapping → Disk → String → ℤ → String → Mapping × Disk
  unfolding update_dispenser_ingredient_mapping
  assign_ingredient_to_dispenser mapping disk pod_id dispenser_id ingredient_id =
      update_dispenser_ingredient_mapping json builder write_file store mapping disk ingredient_id
        (record { pod_id = pod_id; dispenser_id = dispenser_id })
