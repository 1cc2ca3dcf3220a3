-- ===== src/Ingredient.antt =====
-- `cocktail-maker/ingredient.cppm` and `ingredient.cpp`: the catalogue of ingredients. An
-- `IngredientId` is its text. Reading the directory is left out: a file is a parsed document, or a
-- simdjson error.
pub mod Laws
use cocktail_maker.Prelude.{
  Bool, ◌&&◌, true, false, List, [], ◌∷◌, Option, none, some, map, String, String_eq, ◌==◌,
  if◌then◌else◌,
}
use cocktail_maker.Prelude.Assoc.{find, emplace, keys}
use cocktail_maker.Prelude.Expected.{Expected, value, unexpected, ◌>>=◌, or_throw}
use cocktail_maker.Json.{Json}

pub data BoostCategory : Type 0 where
  fixed boostable reducible : BoostCategory

pub data IngredientType : Type 0 where
  alcohol juice syrup soda water dairy bitters puree other : IngredientType

pub record Ingredient : Type 0 where
  pub id : String
  pub display_name : String
  pub type : IngredientType
  pub boost_category : BoostCategory

abbrev pub IngredientStore : Type 0
IngredientStore = List (String × Ingredient)

-- `none` is the failed assertion on a repeated id.
unfoldable pub emplace_all : List Ingredient → IngredientStore → Option IngredientStore
emplace_all [] m = some m
emplace_all (i ∷ is) m =
    let rest = emplace_all is (emplace i.id i m) in
    elim (find i.id m) [ some _ ↦ none | none ↦ rest ]

-- `init_ingredients`: whatever the store held is cleared.
unfoldable pub init_ingredients : IngredientStore → List Ingredient → Option IngredientStore
unfolding emplace_all
init_ingredients store ingredients = emplace_all ingredients []

unfoldable pub find_by_id : IngredientStore → String → Option Ingredient
find_by_id store id = find id store

unfoldable pub ingredients : IngredientStore → List String
ingredients store = keys store

pub data IngredientError : Type 0 where
  json_error : IngredientError
  unknown_type : String → IngredientError
  unknown_boost : String → IngredientError

unfoldable pub parse_ingredient_type : String → Expected IngredientError IngredientType
parse_ingredient_type str =
    if str == "alcohol"
    then value alcohol
    else if str == "juice"
    then value juice
    else if str == "syrup"
    then value syrup
    else if str == "soda"
    then value soda
    else if str == "water"
    then value water
    else if str == "dairy"
    then value dairy
    else if str == "bitters"
    then value bitters
    else if str == "puree"
    then value puree
    else if str == "other"
    then value other
    else unexpected (unknown_type str)

unfoldable pub parse_boost_category : String → Expected IngredientError BoostCategory
parse_boost_category str =
    if str == "fixed"
    then value fixed
    else if str == "boostable"
    then value boostable
    else if str == "reducible"
    then value reducible
    else unexpected (unknown_boost str)

module _ {ℓ} {Q : Type ℓ} (json : Json Q) where
  open json use {Node, at, get_string, get_object}

  -- `obj[key].get_string().value()`
  unfoldable pub string_at : Node → String → Option String
  string_at obj key = elim (at obj key) [ none ↦ none | some node ↦ get_string node ]

  unfoldable pub parse_ingredient : Node → Expected IngredientError Ingredient
  unfolding string_at
  parse_ingredient doc = do
    obj ← or_throw (get_object doc) json_error
    id ← or_throw (string_at obj "id") json_error
    display_name ← or_throw (string_at obj "display_name") json_error
    type_str ← or_throw (string_at obj "type") json_error
    type ← parse_ingredient_type type_str
    boost_str ← or_throw (string_at obj "boost") json_error
    boost ← parse_boost_category boost_str
    value (record { id = id; display_name = display_name; type = type; boost_category = boost })

-- An entry of a directory: what the loaders ask of it. `document` is the parsed file, and `none`
-- where it cannot be read or parsed.
pub record DirectoryEntry {ℓ} (Node : Type ℓ) : Type ℓ where
  pub path : String
  pub is_regular_file : Bool
  pub extension : String
  pub document : Option Node

-- `failed_to_parse` for a simdjson error, `error_in_file` for any other.
pub data LoadError {ℓ} (E : Type ℓ) : Type ℓ where
  failed_to_parse : String → LoadError E
  error_in_file : String → E → LoadError E

abbrev pub is_json_file {ℓ} : {Node : Type ℓ} → DirectoryEntry Node → Bool
is_json_file entry = entry.is_regular_file && entry.extension == ".json"

module _ {ℓ} {Q : Type ℓ} (json : Json Q) where
  open json use {Node}

  load_file : DirectoryEntry Node → Expected (LoadError IngredientError) Ingredient
  load_file entry = elim entry.document [
    | none ↦ unexpected (failed_to_parse entry.path)
    | some doc ↦ elim (parse_ingredient json doc) [
      | value i ↦ value i
      | unexpected e ↦ elim e [
        | json_error ↦ unexpected (failed_to_parse entry.path)
        | what ↦ unexpected (error_in_file entry.path what)
      ]
    ]
  ]

  unfoldable pub load_ingredients_from_dir :
      List (DirectoryEntry Node) → Expected (LoadError IngredientError) (List Ingredient)
  unfolding load_file
  load_ingredients_from_dir [] = value []
  load_ingredients_from_dir (entry ∷ dir) =
      let rest = load_ingredients_from_dir dir in
      if is_json_file entry then (do i ← load_file entry; is ← rest; value (i ∷ is)) else rest
