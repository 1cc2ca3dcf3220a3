-- ===== src/Examples/Boosting.antt =====
-- Scaling and boosting, in whole millilitres.
use mathlib.Core.Int.{ℤ, pos, negsuc}
use cocktail_maker.Prelude.{◌≡◌, refl, [], ◌∷◌, ◌&&◌, none, some, and_then, true}
use cocktail_maker.Prelude.Assoc.{find}
use cocktail_maker.Quantity.Integers.{ℤ_double, ℤ-IsExact}
use cocktail_maker.Ingredient.{boostable, reducible}
use cocktail_maker.Recipe.{Commands, single, parallel, manual, dispense, leaves}
use cocktail_maker.Mixing.Scale.{scale_recipe}
use cocktail_maker.Mixing.Scale.Total.{IsScaled, scale_recipe-total}
use cocktail_maker.Mixing.Boost.{boost_recipe, volumes_of, is_recipe_boostable}
use cocktail_maker.Mixing.Boost.Shape.{StepsKept, boost_recipe-StepsKept}
use cocktail_maker.Mixing.Boost.Conserved.{total_volume, boost_recipe-total}
use cocktail_maker.Mixing.Boost.Boostable.{dispenses, is_recipe_boostable-dispenses}
use cocktail_maker.Mixing.Commute.{scale-boost_recipe}
use cocktail_maker.Examples.Recipes.{bar_store}

-- Ice, 50 ml of rum and 150 ml of cola at once, 10 ml of mint syrup.
abbrev pub drink : ℤ → ℤ → ℤ → Commands ℤ
drink rum cola mint =
    single (manual (record { id = 1; instruction = "Add ice" }))
    ∷ parallel (
        dispense (record { id = 2; ingredient = "rum"; volume = rum })
        ∷ dispense (record { id = 3; ingredient = "cola"; volume = cola })
        ∷ [])
    ∷ single (dispense (record { id = 4; ingredient = "mint"; volume = mint }))
    ∷ []

abbrev pub weak : Commands ℤ
weak = drink (pos 5) (pos 15) (pos 1)

abbrev strong : Commands ℤ
strong = drink (pos 20) (pos 0) (pos 1)

full_boost : boost_recipe weak (pos 100) bar_store ≡ some strong
unfolding boost_recipe find
full_boost = refl

boost_recipe-total_example : total_volume (leaves strong) ≡ total_volume (leaves weak)
unfolding boost_recipe find
boost_recipe-total_example = boost_recipe-total ℤ-IsExact bar_store weak (pos 100) strong refl refl

abbrev heavy : Commands ℤ
heavy = drink (pos 15) (pos 5) (pos 1)

abbrev drained : Commands ℤ
drained = drink (pos 0) (pos 20) (pos 1)

full_weakening : boost_recipe heavy (negsuc 99) bar_store ≡ some drained
unfolding boost_recipe find
full_weakening = refl

too_strong : boost_recipe weak (pos 101) bar_store ≡ none
unfolding boost_recipe find
too_strong = refl

boost_recipe-StepsKept_example : StepsKept bar_store weak strong
unfolding boost_recipe find
boost_recipe-StepsKept_example = boost_recipe-StepsKept bar_store weak strong (pos 100) refl

is_recipe_boostable-dispenses_example :
    is_recipe_boostable bar_store weak
    ≡ (dispenses bar_store boostable (leaves weak) && dispenses bar_store reducible (leaves weak))
is_recipe_boostable-dispenses_example = is_recipe_boostable-dispenses bar_store weak

boostable_drink : is_recipe_boostable bar_store weak ≡ true
unfolding is_recipe_boostable find
boostable_drink = refl

abbrev pub large : Commands ℤ
large = drink (pos 30) (pos 90) (pos 6)

scale_recipe-total_example : IsScaled weak (pos 21) (pos 126)
scale_recipe-total_example = scale_recipe-total ℤ-IsExact weak (pos 21) (pos 126)

scale-boost_recipe_example :
    and_then (boost_recipe weak (pos 100) bar_store) (λ b. scale_recipe b (pos 21) (pos 126))
    ≡ and_then (scale_recipe weak (pos 21) (pos 126)) (λ s. boost_recipe s (pos 100) bar_store)
unfolding volumes_of find
scale-boost_recipe_example =
    scale-boost_recipe bar_store ℤ-IsExact weak (pos 100) (pos 21) (pos 126)
      (record { boostable_sign = refl; reducible_sign = refl; up = refl; down = refl })
