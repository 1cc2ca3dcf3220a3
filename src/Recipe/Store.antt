-- ===== src/Recipe/Store.antt =====
-- The recipe store: what `init_recipes` adds is found again.
use mathlib.Core.Option
use cocktail_maker.Prelude.{
  ℕ, zero, suc, ◌+◌, ◌<◌, ◌≤◌, ◌≡◌, refl, sym, ap, ◌∙◌, List, [], ◌∷◌, ◌++◌, map, none, String,
  String_eq, arith, append-nil, append_assoc, length, length-append, get_elem?, or_else,
}
use cocktail_maker.Prelude.Int.{pos, negsuc}
use cocktail_maker.Recipe.{
  Recipe, RecipeStore, init_recipes, find_by_id, find_by_index, recipe_count,
  assign_unique_command_ids,
}

module _ {Q : Type 0} where
  pub init_recipes-append :
      (store : RecipeStore Q) (rs : List (Recipe Q))
      → init_recipes store rs ≡ store ++ map assign_unique_command_ids rs
  unfolding init_recipes
  init_recipes-append store [] = sym (append-nil store)
  init_recipes-append store (r ∷ rs) =
      init_recipes-append (store ++ (assign_unique_command_ids r ∷ [])) rs
      ∙ append_assoc store (assign_unique_command_ids r ∷ []) (map assign_unique_command_ids rs)

  get_elem?-append_right :
      (xs ys : List (Recipe Q)) (i : ℕ) → get_elem? (xs ++ ys) (length xs + i) ≡ get_elem? ys i
  get_elem?-append_right [] ys i = ap (get_elem? ys) (omega arith)
  get_elem?-append_right (x ∷ xs) ys i =
      let shift : suc (length xs) + i ≡ suc (length xs + i) = omega arith in
      rw shift (get_elem?-append_right xs ys i)

  get_elem?-append_left :
      (xs ys : List (Recipe Q)) (i : ℕ) → i < length xs → get_elem? (xs ++ ys) i ≡ get_elem? xs i
  get_elem?-append_left [] ys i h = absurd (omega arith)
  get_elem?-append_left (x ∷ xs) ys zero h = refl
  get_elem?-append_left (x ∷ xs) ys (suc i) h = get_elem?-append_left xs ys i (omega arith)

  get_elem?_out : (xs : List (Recipe Q)) (i : ℕ) → length xs ≤ i → get_elem? xs i ≡ none
  get_elem?_out [] i h = refl
  get_elem?_out (x ∷ xs) zero h = absurd (omega arith)
  get_elem?_out (x ∷ xs) (suc i) h = get_elem?_out xs i (omega arith)

  length-assigned : (rs : List (Recipe Q)) → length (map assign_unique_command_ids rs) ≡ length rs
  length-assigned [] = refl
  length-assigned (r ∷ rs) = ap suc (length-assigned rs)

  negative : (store : RecipeStore Q) (i : ℕ) → find_by_index store (negsuc i) ≡ none
  unfolding find_by_index
  negative store i = refl

  find_by_id-append :
      (xs ys : RecipeStore Q) (id : String)
      → find_by_id (xs ++ ys) id ≡ or_else (find_by_id xs id) (find_by_id ys id)
  unfolding find_by_id
  find_by_id-append [] ys id = refl
  find_by_id-append (x ∷ xs) ys id = ground (arith, find_by_id-append xs ys id)

  find_by_id-assigned :
      (rs : List (Recipe Q)) (id : String)
      → find_by_id (map assign_unique_command_ids rs) id
        ≡ Option.map assign_unique_command_ids (find_by_id rs id)
  unfolding find_by_id assign_unique_command_ids
  find_by_id-assigned [] id = refl
  find_by_id-assigned (r ∷ rs) id = ground (arith, find_by_id-assigned rs id)

  -- A recipe is found by its id among those that the store held, and only then among the new
  -- ones, with its ids assigned: an id that is taken hides the later recipe.
  pub find_by_id-init_recipes :
      (store : RecipeStore Q) (rs : List (Recipe Q)) (id : String)
      → find_by_id (init_recipes store rs) id
        ≡ or_else (find_by_id store id) (Option.map assign_unique_command_ids (find_by_id rs id))
  find_by_id-init_recipes store rs id =
      ap (λ l. find_by_id l id) (init_recipes-append store rs)
      ∙ find_by_id-append store (map assign_unique_command_ids rs) id
      ∙ ap (or_else (find_by_id store id)) (find_by_id-assigned rs id)

  -- The guard of `find_by_index` never hides a recipe.
  find_by_index-get_elem? :
      (store : RecipeStore Q) (i : ℕ) → find_by_index store (pos i) ≡ get_elem? store i
  unfolding find_by_index
  find_by_index-get_elem? store i = ground (arith, get_elem?_out store i)

  -- init_recipes appends as many recipes as it is given with ids assigned; find_by_index finds
  -- them behind the earlier ones, keeps the earlier ones at their places, and finds nothing at a
  -- negative index.
  pub find_by_index-init_recipes :
      (store : RecipeStore Q) (rs : List (Recipe Q)) (i j : ℕ)
      → j < recipe_count store
      → (recipe_count (init_recipes store rs) ≡ recipe_count store + length rs)
        × (find_by_index (init_recipes store rs) (pos (recipe_count store + i))
            ≡ get_elem? (map assign_unique_command_ids rs) i)
        × (find_by_index (init_recipes store rs) (pos j) ≡ find_by_index store (pos j))
        × (find_by_index (init_recipes store rs) (negsuc i) ≡ none)
  unfolding recipe_count
  find_by_index-init_recipes store rs i j h =
      let new = map assign_unique_command_ids rs in
      let there = λ (k : ℕ).
        find_by_index-get_elem? (init_recipes store rs) k
        ∙ ap (λ l. get_elem? l k) (init_recipes-append store rs) in
      (
        ap length (init_recipes-append store rs)
            ∙ length-append store new
            ∙ ap (◌+◌ (length store)) (length-assigned rs),
        there (length store + i) ∙ get_elem?-append_right store new i,
        there j ∙ get_elem?-append_left store new j h ∙ sym (find_by_index-get_elem? store j),
        negative (init_recipes store rs) i,
      )
