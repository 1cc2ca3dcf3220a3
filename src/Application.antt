-- ===== src/Application.antt =====
-- `Application::init` of `cocktail-maker/application.cpp`: the stores that the program starts with. The
-- directories and files are parameters, as in the parts.
pub mod Laws
use cocktail_maker.Prelude.{Bool, String, List, [], Option, none, some, Comparable}
use cocktail_maker.Prelude.Expected.{Expected, value, unexpected, ◌>>=◌}
use cocktail_maker.Prelude.Int.{ℤ}
use cocktail_maker.Json.{Json}
use cocktail_maker.Ingredient.{
  IngredientStore, DirectoryEntry, LoadError, IngredientError, load_ingredients_from_dir,
  init_ingredients,
}
use cocktail_maker.Recipe.{RecipeStore, init_recipes}
use cocktail_maker.Recipe.Parse.{RecipeError, load_recipes_from_dir}
use cocktail_maker.Glass.{Glasses}
use cocktail_maker.Glass.File.{GlassError, load_glasses_from_dir, init_glasses}
use cocktail_maker.StationConfig.{Mapping, load_config_from_file}

pub record Application (Q F : Type 0) : Type 0 where
  pub glass_store : Glasses Q F
  pub ingredient_store : IngredientStore
  pub recipe_store : RecipeStore Q
  pub station_config : Mapping

-- Why `init` throws; `duplicate_ingredient` is the failed assertion of the store.
pub data InitError : Type 0 where
  glasses_failed : GlassError → InitError
  ingredients_failed : LoadError IngredientError → InitError
  duplicate_ingredient : InitError
  recipes_failed : LoadError RecipeError → InitError

abbrev pub failing_with : {E A : Type 0} → (E → InitError) → Expected E A → Expected InitError A
failing_with f (value a) = value a
failing_with f (unexpected e) = unexpected (f e)

abbrev pub or_duplicate : Option IngredientStore → Expected InitError IngredientStore
or_duplicate none = unexpected duplicate_ingredient
or_duplicate (some store) = value store

-- The directories and files that `init` reads.
pub record Database {ℓ} (Node : Type ℓ) : Type ℓ where
  pub glasses_dir : List (DirectoryEntry Node)
  pub active_volumes_file : Option Node
  pub ingredients_dir : List (DirectoryEntry Node)
  pub recipes_dir : List (DirectoryEntry Node)
  pub station_file : Option Node

module _ {Q F : Type 0} ⦃e : Comparable Q⦄ (json : Json Q) (less : Q → Q → Bool)
    (from_int64 : ℤ → Q) (to_float : Q → F) (stem with_png : String → String) (no_volume : Q) where
  unfoldable pub init : Application Q F → Database json.Node → Expected InitError (Application Q F)
  unfolding load_glasses_from_dir init_glasses load_ingredients_from_dir init_ingredients
      load_recipes_from_dir init_recipes load_config_from_file
  init app db =
      failing_with glasses_failed (load_glasses_from_dir json from_int64 to_float db.glasses_dir)
      >>= λ glasses.
          failing_with ingredients_failed (load_ingredients_from_dir json db.ingredients_dir)
          >>= λ ingredients.
              or_duplicate (init_ingredients app.ingredient_store ingredients) >>= λ store.
              failing_with recipes_failed
                (load_recipes_from_dir json store stem with_png no_volume db.recipes_dir)
              >>= λ recipes. value (record {
                glass_store = init_glasses less json app.glass_store glasses db.active_volumes_file;
                ingredient_store = store;
                recipe_store = init_recipes app.recipe_store recipes;
                station_config =
                    load_config_from_file json store app.station_config db.station_file;
              })
