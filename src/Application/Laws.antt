-- ===== src/Application/Laws.antt =====
-- What the program starts with.
use cocktail_maker.Prelude.{◌≡◌, ap, sym, Bool, String, [], Comparable, All}
use cocktail_maker.Prelude.Expected.{Expected, value, unexpected, >>=-eq-value, value-injective}
use cocktail_maker.Prelude.Int.{ℤ}
use cocktail_maker.Json.{Json}
use cocktail_maker.Ingredient.{init_ingredients, load_ingredients_from_dir}
use cocktail_maker.Recipe.Parse.{load_recipes_from_dir}
use cocktail_maker.Recipe.Parse.Loaded.{IsStored, init_recipes-IsStored}
use cocktail_maker.Glass.File.{load_glasses_from_dir}
use cocktail_maker.Application.{
  Application, Database, InitError, failing_with, or_duplicate, glasses_failed, ingredients_failed,
  recipes_failed, init,
}

failing_inv :
    {E A : Type 0} (f : E → InitError) (r : Expected E A) (a : A)
    → failing_with f r ≡ value a
    → r ≡ value a
failing_inv f (value b) a h = ap value (value-injective b a h)
failing_inv f (unexpected e) a h = absurd cc

module _ {Q F : Type 0} ⦃e : Comparable Q⦄ (json : Json Q) (less : Q → Q → Bool)
    (from_int64 : ℤ → Q) (to_float : Q → F) (stem with_png : String → String) (no_volume : Q) where
  -- After a successful init of an application that holds no recipes, every recipe of the store
  -- only dispenses ingredients of the ingredient store, and its ids are the ones that
  -- assign_unique_command_ids gives.
  pub init-IsStored :
      (app after : Application Q F) (db : Database json.Node)
      → app.recipe_store ≡ []
      → init json less from_int64 to_float stem with_png no_volume app db ≡ value after
      → All (IsStored json after.ingredient_store stem with_png no_volume) after.recipe_store
  unfolding init
  init-IsStored app after db fresh h =
      let (glasses, _, h₁) =
        >>=-eq-value
          (failing_with glasses_failed
            (load_glasses_from_dir json from_int64 to_float db.glasses_dir))
          _ h in
      let (ingredients, _, h₂) =
        >>=-eq-value
          (failing_with ingredients_failed (load_ingredients_from_dir json db.ingredients_dir)) _
          h₁ in
      let (store, _, h₃) =
        >>=-eq-value (or_duplicate (init_ingredients app.ingredient_store ingredients)) _ h₂ in
      let (recipes, loaded, h₄) =
        >>=-eq-value
          (failing_with recipes_failed
            (load_recipes_from_dir json store stem with_png no_volume db.recipes_dir))
          _ h₃ in
      rw (sym (value-injective _ after h₄)) (
        init_recipes-IsStored json store stem with_png no_volume app.recipe_store db.recipes_dir
          recipes (rw fresh tt) (failing_inv recipes_failed _ recipes loaded))
