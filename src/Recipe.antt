-- ===== src/Recipe.antt =====
-- `cocktail-maker/recipe.cppm` and the store of `recipe.cpp`. `Q` is the type of volumes; ids of
-- commands are numbers, since they count up from 1 and `int` does not overflow on a recipe.
pub mod Ids
pub mod Store
pub mod Parse
pub mod View
pub mod Context
use cocktail_maker.Prelude.{
  ℕ, suc, Bool, true, false, List, [], ◌∷◌, ◌++◌, Option, none, some, String, String_eq, ◌==◌,
  if◌then◌else◌, length, get_elem?, ltb, leb, ◌||◌,
}
use cocktail_maker.Prelude.Int.{ℤ, pos, negsuc}

pub record ManualCommand : Type 0 where
  pub id : ℕ
  pub instruction : String

pub record DispenseCommand (Q : Type 0) : Type 0 where
  pub id : ℕ
  pub ingredient : String
  pub volume : Q

-- `std::variant<std::monostate, ManualCommand, DispenseCommand>`
pub data Command (Q : Type 0) : Type 0 where
  monostate : Command Q
  manual : ManualCommand → Command Q
  dispense : DispenseCommand Q → Command Q

-- `std::variant<Command, ParallelCommand>`
pub data Step (Q : Type 0) : Type 0 where
  single : Command Q → Step Q
  parallel : List (Command Q) → Step Q

abbrev pub Commands : Type 0 → Type 0
Commands Q = List (Step Q)

pub record Recipe (Q : Type 0) : Type 0 where
  pub id : String
  pub display_name : String
  pub description : String
  pub tags : List String
  pub image_path : String
  pub nominal_serving_volume : Q
  pub commands : Commands Q

module _ {Q : Type 0} where
  -- The commands of a recipe in the order in which they are visited.
  unfoldable pub leaves : Commands Q → List (Command Q)
  leaves [] = []
  leaves (single c ∷ rest) = c ∷ leaves rest
  leaves (parallel cs ∷ rest) = cs ++ leaves rest

  -- `assign_unique_command_ids`: the visitor's three cases, with `next_id` passed along.
  unfoldable pub assign_command : ℕ → Command Q → Command Q × ℕ
  assign_command next_id monostate = (monostate, next_id)
  assign_command next_id (manual m) = (manual (record m { id = next_id }), suc next_id)
  assign_command next_id (dispense d) = (dispense (record d { id = next_id }), suc next_id)

  unfoldable pub assign_all : ℕ → List (Command Q) → List (Command Q) × ℕ
  unfolding assign_command
  assign_all next_id [] = ([], next_id)
  assign_all next_id (c ∷ cs) =
      let (c', after) = assign_command next_id c in
      let (cs', last) = assign_all after cs in (c' ∷ cs', last)

  unfoldable pub assign_steps : ℕ → Commands Q → Commands Q × ℕ
  unfolding assign_all
  assign_steps next_id [] = ([], next_id)
  assign_steps next_id (single c ∷ rest) =
      let (c', after) = assign_command next_id c in
      let (rest', last) = assign_steps after rest in (single c' ∷ rest', last)
  assign_steps next_id (parallel cs ∷ rest) =
      let (cs', after) = assign_all next_id cs in
      let (rest', last) = assign_steps after rest in (parallel cs' ∷ rest', last)

  unfoldable pub assign_unique_command_ids : Recipe Q → Recipe Q
  unfolding assign_steps
  assign_unique_command_ids r = record r { commands = (assign_steps 1 r.commands).0 }

abbrev pub RecipeStore : Type 0 → Type 0
RecipeStore Q = List (Recipe Q)

module _ {Q : Type 0} where
  -- `init_recipes`: the recipes are appended to those that the store holds.
  unfoldable pub init_recipes : RecipeStore Q → List (Recipe Q) → RecipeStore Q
  init_recipes store [] = store
  init_recipes store (r ∷ rs) = init_recipes (store ++ (assign_unique_command_ids r ∷ [])) rs

  unfoldable pub find_by_id : RecipeStore Q → String → Option (Recipe Q)
  find_by_id [] id = none
  find_by_id (r ∷ rs) id = if r.id == id then some r else find_by_id rs id

  unfoldable pub recipe_count : RecipeStore Q → ℕ
  recipe_count = length

  -- `int` compared with `std::size_t` is taken as unsigned, so a negative index is above any count.
  unfoldable pub find_by_index : RecipeStore Q → ℤ → Option (Recipe Q)
  unfolding recipe_count
  find_by_index store (pos i) = if leb (recipe_count store) i then none else get_elem? store i
  find_by_index store (negsuc i) = none
