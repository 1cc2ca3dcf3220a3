-- ===== src/Mixing/Boost/Cases.antt =====
-- The ways in which a boost returns.
use cocktail_maker.Prelude.{◌≡◌, ◌⊎◌, true, false, some, arith}
use cocktail_maker.Quantity.{Double, ◌⊘◌}
use cocktail_maker.Ingredient.{IngredientStore}
use cocktail_maker.Recipe.{Commands}
use cocktail_maker.Mixing.Boost.{compute_scale_factors, scale_commands, volumes_of, boost_recipe}

-- A boost returns the recipe as it was, or scaled by the factors for its volumes.
pub boost_recipe_cases :
    {Q : Type 0} ⦃d : Double Q⦄ (cs out : Commands Q) (pct : Q) (store : IngredientStore)
    → boost_recipe cs pct store ≡ some out
    → let p = pct ⊘ d.hundred in
      ((d.lt (d.abs p) d.epsilon ≡ true) × (out ≡ cs))
      ⊎ ((d.lt (d.abs p) d.epsilon ≡ false)
          × (out ≡ scale_commands store cs (compute_scale_factors (volumes_of store cs) p)))
unfolding boost_recipe
boost_recipe_cases cs out pct store h = ground arith
