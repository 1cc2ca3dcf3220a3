-- ===== src/Recipe/View.antt =====
-- `gui/src/recipe_adapter.cppm`: a recipe as the user interface shows it. Formatting a volume, upper case
-- and the loading of an image are parameters.
use cocktail_maker.Prelude.{ℕ, Bool, List, [], ◌∷◌, ◌++◌, map, Option, none, some, String}
use cocktail_maker.Prelude.Int.{ℤ}
use cocktail_maker.Ingredient.{IngredientStore, find_by_id}
use cocktail_maker.Mixing.Boost.{is_recipe_boostable}
use cocktail_maker.Recipe.{
  Command, monostate, manual, dispense, Commands, single, parallel, Recipe, RecipeStore,
  recipe_count, find_by_index,
}

-- `gui::CommandStatus`
pub data UiCommandStatus : Type 0 where
  not_started : UiCommandStatus
  shown_in_progress : UiCommandStatus
  shown_finished : UiCommandStatus

-- `gui::Command`
pub record UiCommand : Type 0 where
  pub id : ℕ
  pub status : UiCommandStatus
  pub text : String
  pub value : String

pub record RecipeView (Image : Type 0) : Type 0 where
  pub id : String
  pub name : String
  pub tag_line : List String
  pub description : String
  pub image : Image
  pub commands : List UiCommand
  pub is_boostable : Bool

module _ {Q : Type 0} (show_volume : Q → String) (store : IngredientStore) where
  unfoldable pub transform_command : Command Q → Option UiCommand
  unfolding find_by_id
  transform_command monostate = none
  transform_command (manual m) =
      some (record { id = m.id; status = not_started; text = m.instruction; value = "" })
  transform_command (dispense d) = elim (find_by_id store d.ingredient) [
    | none ↦ none
    | some i ↦ some (record {
      id = d.id;
      status = not_started;
      text = i.display_name;
      value = show_volume d.volume;
    })
  ]

  unfoldable pub push_if_valid : List UiCommand → Command Q → List UiCommand
  unfolding transform_command
  push_if_valid model c = elim (transform_command c) [
    | none ↦ model
    | some transformed ↦ model ++ (transformed ∷ [])
  ]

  unfoldable pub push_all : List UiCommand → List (Command Q) → List UiCommand
  unfolding push_if_valid
  push_all model [] = model
  push_all model (c ∷ cs) = push_all (push_if_valid model c) cs

  unfoldable pub push_steps : List UiCommand → Commands Q → List UiCommand
  unfolding push_all
  push_steps model [] = model
  push_steps model (single c ∷ rest) = push_steps (push_if_valid model c) rest
  push_steps model (parallel cs ∷ rest) = push_steps (push_all model cs) rest

  unfoldable pub transform_commands : Commands Q → List UiCommand
  unfolding push_steps
  transform_commands commands = push_steps [] commands

  module _ {Image : Type 0} (upper : String → String) (load_from_path : String → Image) where
    unfoldable pub transform : Recipe Q → RecipeView Image
    unfolding transform_commands is_recipe_boostable
    transform r = record {
      id = r.id;
      name = r.display_name;
      tag_line = map upper r.tags;
      description = r.description;
      image = load_from_path r.image_path;
      commands = transform_commands r.commands;
      is_boostable = is_recipe_boostable store r.commands;
    }

    -- `RecipeModel::row_data` and `row_count`; the row is a `size_t` that becomes an `int`.
    unfoldable pub row_data : RecipeStore Q → ℤ → Option (RecipeView Image)
    unfolding transform find_by_index
    row_data recipes row = elim (find_by_index recipes row) [
      | none ↦ none
      | some r ↦ some (transform r)
    ]

unfoldable pub row_count : {Q : Type 0} → RecipeStore Q → ℕ
unfolding recipe_count
row_count recipes = recipe_count recipes
