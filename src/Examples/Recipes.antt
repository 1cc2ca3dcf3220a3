-- ===== src/Examples/Recipes.antt =====
-- Ingredients and recipes.
use cocktail_maker.Prelude.{ℕ, ◌≡◌, refl, List, [], ◌∷◌, none, String, String_eq}
use cocktail_maker.Prelude.Assoc.{find, emplace}
use cocktail_maker.Prelude.Int.{ℤ, pos, pos_part}
use cocktail_maker.Json.Tree.{Tree, text, number, array, object, nil, cons, end, member, trees}
use cocktail_maker.Ingredient.{
  Ingredient, IngredientStore, init_ingredients, alcohol, soda, other, boostable, reducible, fixed,
}
use cocktail_maker.Recipe.{
  Recipe, single, parallel, manual, dispense, leaves, assign_unique_command_ids,
}
use cocktail_maker.Recipe.Ids.{ids, numbered, count_from, ids-assign_unique_command_ids}
use cocktail_maker.Recipe.Parse.{parse_recipe}
use cocktail_maker.Recipe.Parse.Laws.{parse_recipe-IsChecked}

abbrev pub rum : Ingredient
rum = record { id = "rum"; display_name = "White rum"; type = alcohol; boost_category = boostable }

abbrev pub cola : Ingredient
cola = record { id = "cola"; display_name = "Cola"; type = soda; boost_category = reducible }

abbrev mint : Ingredient
mint = record { id = "mint"; display_name = "Mint"; type = other; boost_category = fixed }

abbrev pub bar : List Ingredient
bar = rum ∷ cola ∷ mint ∷ []

abbrev pub bar_store : IngredientStore
bar_store = ("rum", rum) ∷ ("cola", cola) ∷ ("mint", mint) ∷ []

init_ingredients_twice : init_ingredients [] (rum ∷ rum ∷ []) ≡ none
unfolding init_ingredients find emplace
init_ingredients_twice = refl

abbrev pub cuba_libre : Recipe ℕ
cuba_libre = record {
  id = "cuba_libre";
  display_name = "Cuba libre";
  description = "";
  tags = "classic" ∷ [];
  image_path = "cuba_libre.png";
  nominal_serving_volume = 200;
  commands =
      single (manual (record { id = 0; instruction = "Add ice" }))
      ∷ parallel (
          dispense (record { id = 0; ingredient = "rum"; volume = 50 })
          ∷ dispense (record { id = 0; ingredient = "cola"; volume = 150 })
          ∷ [])
      ∷ [];
}

numbered_recipe : ids (leaves (assign_unique_command_ids cuba_libre).commands) ≡ 1 ∷ 2 ∷ 3 ∷ []
unfolding assign_unique_command_ids leaves
numbered_recipe = refl

ids-assign_unique_command_ids_example :
    ids (leaves (assign_unique_command_ids cuba_libre).commands)
    ≡ count_from 1 (numbered (leaves cuba_libre.commands))
ids-assign_unique_command_ids_example = (ids-assign_unique_command_ids cuba_libre).0

abbrev step_of : String → String → ℕ → Tree
step_of kind ingredient ml = object (
    member "kind" (text kind)
      (member "ingredient" (text ingredient) (member "volume" (number (pos ml)) end)))

abbrev document : Tree
document = object (
    member "name" (text "Cuba libre") (
      member "steps"
        (array (
          cons (object (member "kind" (text "manual") (member "text" (text "Add ice") end))) (
            cons
              (object (
                member "kind" (text "parallel") (
                  member "steps"
                    (array (
                      cons (step_of "dispense" "rum" 50)
                        (cons (step_of "dispense" "cola" 150) nil)))
                    end)))
              nil)))
        end))

abbrev read_recipe : Recipe ℕ
read_recipe = record {
  id = "cuba_libre";
  display_name = "Cuba libre";
  description = "";
  tags = [];
  image_path = "cuba_libre.png";
  nominal_serving_volume = 0;
  commands =
      single (manual (record { id = 1; instruction = "Add ice" }))
      ∷ parallel (
          dispense (record { id = 2; ingredient = "rum"; volume = 50 })
          ∷ dispense (record { id = 3; ingredient = "cola"; volume = 150 })
          ∷ [])
      ∷ [];
}

abbrev as_number : ℤ → ℕ
as_number z = pos_part z

parse_recipe-IsChecked_example : assign_unique_command_ids read_recipe ≡ read_recipe
unfolding parse_recipe find
parse_recipe-IsChecked_example =
    (parse_recipe-IsChecked (trees as_number) bar_store (λ path. "cuba_libre")
      (λ path. "cuba_libre.png") 0 document "cuba_libre.json" read_recipe refl).1
