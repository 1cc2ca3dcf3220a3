-- ===== src/Examples/Start.antt =====
-- Starting with one ingredient and one recipe.
use cocktail_maker.Prelude.{ℕ, refl, true, [], ◌∷◌, none, some, String, ltb, ℕ_eq, All}
use cocktail_maker.Prelude.Assoc.{find, emplace}
use cocktail_maker.Prelude.Int.{ℤ, pos, pos_part}
use cocktail_maker.Json.Tree.{Tree, text, number, array, object, nil, cons, end, member, trees}
use cocktail_maker.Ingredient.{
  DirectoryEntry, parse_ingredient, parse_ingredient_type, parse_boost_category,
}
use cocktail_maker.Recipe.{single, dispense, assign_unique_command_ids}
use cocktail_maker.Glass.File.{load_glass_active_volumes}
use cocktail_maker.Recipe.Parse.Loaded.{IsStored}
use cocktail_maker.Application.{Application, Database, init}
use cocktail_maker.Application.Laws.{init-IsStored}
use cocktail_maker.Examples.Recipes.{rum}

abbrev number_of : ℤ → ℕ
number_of z = pos_part z

abbrev same_text : String → String
same_text s = s

abbrev same_number : ℕ → ℕ
same_number n = n

abbrev json_file : String → Tree → DirectoryEntry Tree
json_file path document = record {
  path = path;
  is_regular_file = true;
  extension = ".json";
  document = some document;
}

abbrev rum_document : Tree
rum_document = object (
    member "id" (text "rum") (
      member "display_name" (text "White rum")
        (member "type" (text "alcohol") (member "boost" (text "boostable") end))))

abbrev shot_document : Tree
shot_document = object (
    member "name" (text "Shot") (
      member "steps"
        (array (
          cons
            (object (
              member "kind" (text "dispense")
                (member "ingredient" (text "rum") (member "volume" (number (pos 40)) end))))
            nil))
        end))

abbrev one_of_each : Database Tree
one_of_each = record {
  glasses_dir = [];
  active_volumes_file = none;
  ingredients_dir = json_file "rum.json" rum_document ∷ [];
  recipes_dir = json_file "shot" shot_document ∷ [];
  station_file = none;
}

abbrev empty_application : Application ℕ ℕ
empty_application = record {
  glass_store = [];
  ingredient_store = [];
  recipe_store = [];
  station_config = [];
}

abbrev started : Application ℕ ℕ
started = record {
  glass_store = [];
  ingredient_store = ("rum", rum) ∷ [];
  recipe_store =
      record {
        id = "shot";
        display_name = "Shot";
        description = "";
        tags = [];
        image_path = "shot";
        nominal_serving_volume = 0;
        commands = single (dispense (record { id = 1; ingredient = "rum"; volume = 40 })) ∷ [];
      }
      ∷ [];
  station_config = [];
}

init-IsStored_example :
    All
      (IsStored (trees number_of) started.ingredient_store same_text same_text 0)
      started.recipe_store
unfolding init find emplace parse_ingredient parse_ingredient_type parse_boost_category
    load_glass_active_volumes assign_unique_command_ids
init-IsStored_example =
    init-IsStored (trees number_of) ltb number_of same_number same_text same_text 0
      empty_application started one_of_each refl refl
