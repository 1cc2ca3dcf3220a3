-- ===== src/Process/Pipeline/Laws.antt =====
-- How much is mixed.
use cocktail_maker.Prelude.{◌≡◌, ◌⊎◌, ◌∙◌, inl, inr, ap, true, some}
use cocktail_maker.Quantity.{Double, IsExact, ◌⊗◌, ◌⊘◌, ◌⊖◌}
use cocktail_maker.Ingredient.{IngredientStore}
use cocktail_maker.Recipe.{Commands, Recipe, leaves}
use cocktail_maker.Mixing.Scale.{scale_recipe, scale_epsilon}
use cocktail_maker.Mixing.Scale.Total.{scale_recipe-reaches}
use cocktail_maker.Mixing.Boost.{boost_recipe, volumes_of}
use cocktail_maker.Mixing.Boost.Conserved.{total_volume, boost_recipe-total, QuotientIsExact}
use cocktail_maker.Process.Pipeline.{prepared}

module _ {Q : Type 0} ⦃d : Double Q⦄ (store : IngredientStore) where
  -- Where sums and products are exact, the factor of the scaling is exact, the quotient of volumes
  -- is exact where the boost takes one, and the commands of a recipe add up to its nominal volume,
  -- the commands that are executed add up to the target volume, whatever the boost; only where the
  -- factor is so near to one that the recipe is not scaled, they add up to the nominal volume.
  pub prepared-total :
      (recipe : Recipe Q) (boost target : Q) (scaled out : Commands Q)
      → IsExact Q
      → scale_recipe recipe.commands recipe.nominal_serving_volume target ≡ some scaled
      → prepared store recipe boost target ≡ some out
      → recipe.nominal_serving_volume ⊗ (target ⊘ recipe.nominal_serving_volume) ≡ target
      → total_volume (leaves recipe.commands) ≡ recipe.nominal_serving_volume
      → QuotientIsExact (volumes_of store scaled) (boost ⊘ d.hundred)
      → ((d.le (d.abs (target ⊘ recipe.nominal_serving_volume ⊖ d.unit)) scale_epsilon ≡ true)
          × (total_volume (leaves out) ≡ recipe.nominal_serving_volume))
        ⊎ (total_volume (leaves out) ≡ target)
  unfolding prepared
  prepared-total recipe boost target scaled out exact one h quotient adds_up boost_quotient =
      let two : boost_recipe scaled boost store ≡ some out = rw (prepared, one) at h in
      let kept = boost_recipe-total exact store scaled boost out two boost_quotient in
      elim (scale_recipe-reaches exact recipe.commands scaled recipe.nominal_serving_volume target
        one quotient adds_up) [
          | inl (near, same) ↦ inl (near, kept ∙ ap (λ l. total_volume (leaves l)) same ∙ adds_up)
          | inr reached ↦ inr (kept ∙ reached)
        ]
