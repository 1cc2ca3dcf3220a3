-- ===== src/Recipe/Parse/Loaded.antt =====
-- The recipes of a directory.
use cocktail_maker.Prelude.{
  ◌≡◌, sym, inl, inr, List, [], ◌∷◌, ◌++◌, map, none, some, String, Bool-cases, All, arith,
  Option-cases,
}
use cocktail_maker.Prelude.Expected.{value, >>=-eq-value, value-injective}
use cocktail_maker.Json.{Json}
use cocktail_maker.Ingredient.{IngredientStore, DirectoryEntry, is_json_file}
use cocktail_maker.Recipe.{Recipe, RecipeStore, assign_unique_command_ids, init_recipes}
use cocktail_maker.Recipe.Store.{init_recipes-append}
use cocktail_maker.Recipe.Parse.{parse_recipe, load_single_file, load_recipes_from_dir}
use cocktail_maker.Recipe.Parse.Laws.{IsChecked, parse_recipe-IsChecked}

-- The machine can carry out every step of the recipe.
abbrev pub IsCheckedRecipe : {Q : Type 0} → IngredientStore → Recipe Q → Type 0
IsCheckedRecipe store r = All (IsChecked store) r.commands

module _ {Q : Type 0} (json : Json Q) (store : IngredientStore) (stem with_png : String → String)
    (no_volume : Q) where
  loaded_document :
      (entry : DirectoryEntry json.Node) (r : Recipe Q) (doc : json.Node)
      → entry.document ≡ some doc
      → load_single_file json store stem with_png no_volume entry ≡ value r
      → parse_recipe json store stem with_png no_volume doc entry.path ≡ value r
  unfolding load_single_file
  loaded_document entry r doc there h = ground (arith, there, h)

  no_document :
      (entry : DirectoryEntry json.Node) (r : Recipe Q)
      → entry.document ≡ none
      → load_single_file json store stem with_png no_volume entry ≡ value r
      → ⊥
  unfolding load_single_file
  no_document entry r missing h = ground (arith, missing, h)

  load_single_file-IsChecked :
      (entry : DirectoryEntry json.Node) (r : Recipe Q)
      → load_single_file json store stem with_png no_volume entry ≡ value r
      → IsCheckedRecipe store r × (assign_unique_command_ids r ≡ r)
  load_single_file-IsChecked entry r h = elim (Option-cases entry.document) [
    | inl missing ↦ absurd (no_document entry r missing h)
    | inr (doc, there) ↦
        let (checked, ids, _) =
          parse_recipe-IsChecked json store stem with_png no_volume doc entry.path r
            (loaded_document entry r doc there h) in
        (checked, ids)
  ]

  -- A recipe as it stands in the store.
  abbrev pub IsStored : Recipe Q → Type 0
  IsStored r = IsCheckedRecipe store r × (assign_unique_command_ids r ≡ r)

  pub load_recipes-IsStored :
      (dir : List (DirectoryEntry json.Node)) (rs : List (Recipe Q))
      → load_recipes_from_dir json store stem with_png no_volume dir ≡ value rs
      → All IsStored rs
  unfolding load_recipes_from_dir
  load_recipes-IsStored [] rs h = rw (sym (value-injective [] rs h)) tt
  load_recipes-IsStored (entry ∷ dir) rs h = elim (Bool-cases (is_json_file entry)) [
    | inr skipped ↦ load_recipes-IsStored dir rs (rw skipped at h)
    | inl taken ↦
        let (r, one, h₁) =
          >>=-eq-value (load_single_file json store stem with_png no_volume entry) _
            (rw taken at h) in
        let (others, more, h₂) =
          >>=-eq-value (load_recipes_from_dir json store stem with_png no_volume dir) _ h₁ in
        rw (sym (value-injective (r ∷ others) rs h₂))
          (load_single_file-IsChecked entry r one, load_recipes-IsStored dir others more)
  ]

  append-IsStored :
      (rs others : List (Recipe Q))
      → All IsStored rs
      → All IsStored others
      → All IsStored (rs ++ map assign_unique_command_ids others)
  append-IsStored [] [] a b = tt
  append-IsStored [] (r ∷ others) a b = (rw b.0.1 b.0, append-IsStored [] others tt b.1)
  append-IsStored (r ∷ rs) others a b = (a.0, append-IsStored rs others a.1 b)

  -- The recipes of a directory leave the store as it should be: every dispensed ingredient is known, and
  -- the ids are assigned.
  pub init_recipes-IsStored :
      (recipes : RecipeStore Q) (dir : List (DirectoryEntry json.Node)) (rs : List (Recipe Q))
      → All IsStored recipes
      → load_recipes_from_dir json store stem with_png no_volume dir ≡ value rs
      → All IsStored (init_recipes recipes rs)
  init_recipes-IsStored recipes dir rs before h =
      rw (init_recipes-append recipes rs)
        (append-IsStored recipes rs before (load_recipes-IsStored dir rs h))
