-- ===== src/Recipe/Parse.antt =====
-- `parse_recipe` and `load_recipes_from_dir` of `cocktail-maker/recipe.cpp`, over a parsed document.
-- `stem` and `with_png` are `std::filesystem::path::stem` and `replace_extension(".png")`.
pub mod Laws
pub mod Loaded
use cocktail_maker.Prelude.{
  ℕ, suc, Bool, List, [], ◌∷◌, Option, none, some, String, String_eq, ◌==◌, if◌then◌else◌,
}
use cocktail_maker.Prelude.Expected.{Expected, value, unexpected, ◌>>=◌, or_throw}
use cocktail_maker.Json.{Json}
use cocktail_maker.Ingredient.{
  IngredientStore, find_by_id, string_at, DirectoryEntry, LoadError, failed_to_parse, error_in_file,
  is_json_file,
}
use cocktail_maker.Recipe.{
  ManualCommand, DispenseCommand, Command, manual, dispense, Step, single, parallel, Commands,
  Recipe,
}

pub data RecipeError : Type 0 where
  json_error : RecipeError
  ingredient_not_found : String → RecipeError
  only_dispense_in_parallel : RecipeError
  unknown_kind : String → RecipeError

module _ {Q : Type 0} (json : Json Q) (store : IngredientStore) where
  open json use {Node, at, get_double, get_array, get_object}

  unfoldable pub field : Node → String → Expected RecipeError String
  unfolding string_at
  field obj key = or_throw (string_at json obj key) json_error

  unfoldable pub double_at : Node → String → Option Q
  double_at obj key = elim (at obj key) [ none ↦ none | some node ↦ get_double node ]

  unfoldable pub array_at : Node → String → Option (List Node)
  array_at obj key = elim (at obj key) [ none ↦ none | some node ↦ get_array node ]

  unfoldable pub check_known : String → Expected RecipeError String
  unfolding find_by_id
  check_known ingredient = elim (find_by_id store ingredient) [
    | none ↦ unexpected (ingredient_not_found ingredient)
    | some _ ↦ value ingredient
  ]

  -- `if (kind == "dispense")`; the same lines stand in the parallel block.
  unfoldable pub parse_dispense : ℕ → Node → Expected RecipeError (DispenseCommand Q)
  unfolding field check_known double_at
  parse_dispense id obj = do
    ingredient ← field obj "ingredient"
    known ← check_known ingredient
    volume ← or_throw (double_at obj "volume") json_error
    value (record { id = id; ingredient = known; volume = volume })

  unfoldable pub parse_inner_kind : ℕ → Node → String → Expected RecipeError (DispenseCommand Q)
  unfolding parse_dispense
  parse_inner_kind id inner_obj inner_kind =
      if inner_kind == "dispense"
      then parse_dispense id inner_obj
      else unexpected only_dispense_in_parallel

  unfoldable pub parse_inner : ℕ → Node → Expected RecipeError (DispenseCommand Q)
  unfolding field parse_inner_kind
  parse_inner id inner_val = do
    inner_obj ← or_throw (get_object inner_val) json_error
    inner_kind ← field inner_obj "kind"
    parse_inner_kind id inner_obj inner_kind

  unfoldable pub parse_parallel : ℕ → List Node → Expected RecipeError (List (Command Q) × ℕ)
  unfolding parse_inner
  parse_parallel next_id [] = value ([], next_id)
  parse_parallel next_id (inner_val ∷ rest) = do
    cmd ← parse_inner next_id inner_val
    (cmds, last) ← parse_parallel (suc next_id) rest
    value (dispense cmd ∷ cmds, last)

  -- The cases of `kind`.
  unfoldable pub parse_kind : ℕ → Node → String → Expected RecipeError (Step Q × ℕ)
  unfolding field parse_dispense parse_parallel array_at
  parse_kind next_id step_obj kind =
      if kind == "dispense"
      then (parse_dispense next_id step_obj >>= λ cmd. value (single (dispense cmd), suc next_id))
      else if kind == "manual"
      then (field step_obj "text" >>= λ instruction.
          value (single (manual (record { id = next_id; instruction = instruction })), suc next_id))
      else if kind == "parallel"
      then (or_throw (array_at step_obj "steps") json_error >>= λ parallel_steps.
          parse_parallel next_id parallel_steps >>= λ (cmds, last). value (parallel cmds, last))
      else unexpected (unknown_kind kind)

  unfoldable pub parse_step : ℕ → Node → Expected RecipeError (Step Q × ℕ)
  unfolding field parse_kind
  parse_step next_id step_val = do
    step_obj ← or_throw (get_object step_val) json_error
    kind ← field step_obj "kind"
    parse_kind next_id step_obj kind

  unfoldable pub parse_steps : ℕ → List Node → Expected RecipeError (Commands Q)
  unfolding parse_step
  parse_steps next_id [] = value []
  parse_steps next_id (step_val ∷ rest) = do
    (step, last) ← parse_step next_id step_val
    steps ← parse_steps last rest
    value (step ∷ steps)

  unfoldable pub parse_tags : List Node → Expected RecipeError (List String)
  parse_tags [] = value []
  parse_tags (tag_val ∷ rest) = do
    tag ← or_throw (json.get_string tag_val) json_error
    tags ← parse_tags rest
    value (tag ∷ tags)

  -- The optional members.
  unfoldable pub tags_of : Node → List Node
  unfolding array_at
  tags_of obj = elim (array_at obj "tags") [ none ↦ [] | some arr ↦ arr ]

  unfoldable pub description_of : Node → String
  unfolding string_at
  description_of obj = elim (string_at json obj "description") [ none ↦ "" | some s ↦ s ]

  module _ (stem with_png : String → String) (no_volume : Q) where
    unfoldable pub nominal_of : Node → Q
    unfolding double_at
    nominal_of obj = elim (double_at obj "nominal_serving_volume") [ none ↦ no_volume | some v ↦ v ]

    -- `no_volume` is 0.0, the default of a recipe that states no nominal serving volume.
    unfoldable pub parse_recipe : Node → String → Expected RecipeError (Recipe Q)
    unfolding field parse_steps parse_tags array_at tags_of description_of nominal_of
    parse_recipe doc file_path = do
      obj ← or_throw (get_object doc) json_error
      name ← field obj "name"
      tags ← parse_tags (tags_of obj)
      steps_arr ← or_throw (array_at obj "steps") json_error
      commands ← parse_steps 1 steps_arr
      value (record {
        id = stem file_path;
        display_name = name;
        description = description_of obj;
        tags = tags;
        image_path = with_png file_path;
        nominal_serving_volume = elim (double_at obj "nominal_serving_volume") [
          | none ↦ no_volume
          | some v ↦ v
        ];
        commands = commands;
      })

    unfoldable pub load_single_file :
        DirectoryEntry Node → Expected (LoadError RecipeError) (Recipe Q)
    unfolding parse_recipe
    load_single_file entry = elim entry.document [
      | none ↦ unexpected (failed_to_parse entry.path)
      | some doc ↦ elim (parse_recipe doc entry.path) [
        | value r ↦ value r
        | unexpected e ↦ elim e [
          | json_error ↦ unexpected (failed_to_parse entry.path)
          | what ↦ unexpected (error_in_file entry.path what)
        ]
      ]
    ]

    -- The branch for a directory; a path that is one file is a list of that entry.
    unfoldable pub load_recipes_from_dir :
        List (DirectoryEntry Node) → Expected (LoadError RecipeError) (List (Recipe Q))
    unfolding load_single_file
    load_recipes_from_dir [] = value []
    load_recipes_from_dir (entry ∷ dir) =
        let rest = load_recipes_from_dir dir in
        if is_json_file entry
        then (do r ← load_single_file entry; rs ← rest; value (r ∷ rs))
        else rest
