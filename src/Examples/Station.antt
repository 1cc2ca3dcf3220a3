-- ===== src/Examples/Station.antt =====
-- The operator's PIN and the assignment of ingredients.
use cocktail_maker.Prelude.{
  ℕ, ◌≡◌, ◌≢◌, refl, false, [], ◌∷◌, Option, none, some, String, String_eq, arith,
}
use cocktail_maker.Prelude.Assoc.{find, Unique}
use cocktail_maker.Prelude.Int.{ℤ, pos, pos_part}
use cocktail_maker.Json.{Builder}
use cocktail_maker.Json.Tree.{Tree, trees, tree_builder}
use cocktail_maker.Examples.Recipes.{bar_store, rum, cola}
use cocktail_maker.Ingredient.{find_by_id}
use cocktail_maker.OperatorAuth.{OperatorAuthConfig, new_auth, verify, remaining_attempts}
use cocktail_maker.OperatorAuth.Laws.{verify_all, verify_all-locks}
use cocktail_maker.StationConfig.{PodDispenser, Mapping, load_config_from_file, saved}
use cocktail_maker.StationConfig.Stored.{load_config-saved}

-- A hash that shows what it hashes.
abbrev plain_hash : String → String → String
plain_hash pin salt = pin

abbrev config : OperatorAuthConfig
config = record { pin_hash = "1234"; salt = "s"; max_attempts = 2; lockout_duration = 30 }

verify_all-locks_example :
    let locked =
      (verify plain_hash (verify_all plain_hash (new_auth config) (("0", 1) ∷ [])) "1" 2).0 in
    (verify plain_hash locked "1234" 3 ≡ (locked, false)) × (remaining_attempts locked ≡ 0)
verify_all-locks_example =
    verify_all-locks plain_hash config (("0", 1) ∷ []) "1" 2 "1234" 3 (refl, tt) refl (omega arith)
      (omega arith)

abbrev at : String → ℕ → PodDispenser
at pod n = record { pod_id = pod; dispenser_id = pos n }

abbrev assigned : Mapping
assigned = ("rum", at "a" 0) ∷ ("cola", at "a" 1) ∷ []

assigned-Unique : Unique assigned
assigned-Unique = (((λ p. ground (arith, (String_eq.equal_iff "cola" "rum").1 p)), tt), (tt, tt))

abbrev last_written : Tree → Tree → Tree
last_written new old = new

abbrev from_pos : ℤ → ℕ
from_pos z = pos_part z

abbrev builder : Builder (trees from_pos)
builder = tree_builder from_pos pos (λ n. refl)

some_known : {A : Type 0} (a : A) (o : Option A) → o ≡ some a → o ≢ none
some_known a o h n = cc

load_config-saved_example :
    load_config_from_file
      (trees from_pos)
      bar_store
      []
      (some (saved (trees from_pos) builder assigned))
    ≡ assigned
unfolding find find_by_id
load_config-saved_example =
    load_config-saved (trees from_pos) builder bar_store [] assigned
      (
        (some_known rum (some rum) refl, (omega arith, omega arith)),
        ((some_known cola (some cola) refl, (omega arith, omega arith)), tt),
      )
      assigned-Unique
