-- ===== src/Mixing/Boost/Boostable.antt =====
-- `is_recipe_boostable` against a search for the two categories.
use cocktail_maker.Prelude.{
  ◌≡◌, ◌∙◌, ap, Bool, true, false, ◌&&◌, ◌||◌, List, [], ◌∷◌, foldl, Option, some, arith,
}
use cocktail_maker.Ingredient.{BoostCategory, boostable, reducible, fixed, IngredientStore}
use cocktail_maker.Recipe.{Command, monostate, manual, dispense, Commands, leaves}
use cocktail_maker.Mixing.Boost.{
  BoostSummary, category_of, summarize_boostables, is_recipe_boostable,
}
use cocktail_maker.Mixing.Boost.Volumes.{fold_commands-leaves}

abbrev is_category : BoostCategory → Option BoostCategory → Bool
is_category boostable (some boostable) = true
is_category reducible (some reducible) = true
is_category fixed (some fixed) = true
is_category _ _ = false

abbrev both : BoostSummary → Bool
both s = s.has_boostables && s.has_reducables

module _ {Q : Type 0} (store : IngredientStore) where
  -- Some command dispenses an ingredient of the category.
  abbrev pub dispenses : BoostCategory → List (Command Q) → Bool
  dispenses category [] = false
  dispenses category (dispense c ∷ cs) =
      is_category category (category_of store c.ingredient) || dispenses category cs
  dispenses category (monostate ∷ cs) = dispenses category cs
  dispenses category (manual m ∷ cs) = dispenses category cs

  foldl-summarize :
      (acc : BoostSummary) (l : List (Command Q))
      → both (foldl (summarize_boostables store) acc l) ≡ (
          (acc.has_boostables || dispenses boostable l)
          && (acc.has_reducables || dispenses reducible l))
  unfolding summarize_boostables
  foldl-summarize acc [] = ground arith
  foldl-summarize acc (monostate ∷ cs) = foldl-summarize acc cs
  foldl-summarize acc (manual m ∷ cs) = foldl-summarize acc cs
  foldl-summarize acc (dispense c ∷ cs) =
      foldl-summarize (summarize_boostables store acc (dispense c)) cs ∙ ground arith

  -- is_recipe_boostable holds exactly when the recipe dispenses a boostable and a reducible
  -- ingredient, parallel groups included.
  pub is_recipe_boostable-dispenses :
      (cs : Commands Q)
      → is_recipe_boostable store cs
        ≡ (dispenses boostable (leaves cs) && dispenses reducible (leaves cs))
  unfolding is_recipe_boostable
  is_recipe_boostable-dispenses cs =
      ap both (fold_commands-leaves cs nothing (summarize_boostables store))
      ∙ foldl-summarize nothing (leaves cs)
    where
      nothing : BoostSummary
      nothing = record { has_boostables = false; has_reducables = false }
