-- ===== src/Recipe/Context/Laws.antt =====
-- Boosts do not add up.
use cocktail_maker.Prelude.{
  ◌≡◌, ◌∙◌, refl, ap, sym, inl, inr, [], ◌∷◌, none, some, String, String_eq, arith, Option-cases,
  some-injective,
}
use cocktail_maker.Quantity.{Double}
use cocktail_maker.Ingredient.{IngredientStore}
use cocktail_maker.Recipe.{Recipe, RecipeStore, find_by_id}
use cocktail_maker.Recipe.View.{RecipeView, transform}
use cocktail_maker.Recipe.Context.{boost_recipe_callback}

find_by_id-id :
    {Q : Type 0} (recipes : RecipeStore Q) (id : String) (r : Recipe Q)
    → find_by_id recipes id ≡ some r
    → r.id ≡ id
unfolding find_by_id
find_by_id-id [] id r h = absurd cc
find_by_id-id (x ∷ recipes) id r h =
    ground (arith, h, String_eq.equal_iff x.id id, find_by_id-id recipes id r)

module _ {Q : Type 0} ⦃d : Double Q⦄ {Image : Type 0} (show_volume : Q → String)
    (store : IngredientStore) (upper : String → String) (load_from_path : String → Image)
    (recipes : RecipeStore Q) where
  callback_unknown :
      (active : RecipeView Image) (boost : Q)
      → find_by_id recipes active.id ≡ none
      → boost_recipe_callback show_volume store upper load_from_path recipes active boost
        ≡ some active
  unfolding boost_recipe_callback
  callback_unknown active boost missing = rw (boost_recipe_callback, missing) refl

  -- The callback reads nothing of the shown recipe but its id, and keeps that.
  callback_known :
      (active other : RecipeView Image) (boost : Q) (r : Recipe Q)
      → find_by_id recipes active.id ≡ some r
      → boost_recipe_callback show_volume store upper load_from_path recipes active boost
        ≡ some other
      → other.id ≡ active.id
  unfolding boost_recipe_callback transform
  callback_known active other boost r there h =
      let same = find_by_id-id recipes active.id r there in ground (arith, there, h, same)

  callback_same :
      (active other : RecipeView Image) (boost : Q) (r : Recipe Q)
      → find_by_id recipes active.id ≡ some r
      → other.id ≡ active.id
      → boost_recipe_callback show_volume store upper load_from_path recipes other boost
        ≡ boost_recipe_callback show_volume store upper load_from_path recipes active boost
  unfolding boost_recipe_callback
  callback_same active other boost r there same = rw (boost_recipe_callback, same, there) refl

  -- Boosting the shown recipe twice shows what the second boost alone shows.
  pub boost_recipe_callback_twice :
      (active between : RecipeView Image) (first second : Q)
      → boost_recipe_callback show_volume store upper load_from_path recipes active first
        ≡ some between
      → boost_recipe_callback show_volume store upper load_from_path recipes between second
        ≡ boost_recipe_callback show_volume store upper load_from_path recipes active second
  boost_recipe_callback_twice active between first second h =
      elim (Option-cases (find_by_id recipes active.id)) [
        | inl missing ↦
            let same : active ≡ between =
              some-injective active between (sym (callback_unknown active first missing) ∙ h) in
            ap (λ v. boost_recipe_callback show_volume store upper load_from_path recipes v second)
              (sym same)
        | inr (r, there) ↦
            callback_same active between second r there
              (callback_known active between first r there h)
      ]
