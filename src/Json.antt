-- ===== src/Json.antt =====
-- What the program uses of simdjson, which is no part of the repository: the lookups by which it
-- reads a parsed document. `none` is an error code, which `.value()` turns into an exception.
pub mod Tree
use cocktail_maker.Prelude.{◌≡◌, List, Option, some, String, String_eq}
use cocktail_maker.Prelude.Assoc.{find}
use cocktail_maker.Prelude.Int.{ℤ}

-- `Q` is the type of the numbers that are read as `double`.
pub record Json {ℓ} (Q : Type ℓ) : Type (ℓ ⊔ 1) where
  pub Node : Type 0
  -- `node[key]`
  pub at : Node → String → Option Node
  pub get_string : Node → Option String
  pub get_double : Node → Option Q
  pub get_int64 : Node → Option ℤ
  pub get_array : Node → Option (List Node)
  pub get_object : Node → Option Node

-- The documents that `simdjson::builder` writes and the parser reads back.
pub record Builder {ℓ} {Q : Type ℓ} (json : Json Q) : Type (ℓ ⊔ 1) where
  pub text_node : String → json.Node
  pub int_node : ℤ → json.Node
  pub double_node : Q → json.Node
  pub array_node : List json.Node → json.Node
  pub object_node : List (String × json.Node) → json.Node
  pub get_string-text_node : (s : String) → json.get_string (text_node s) ≡ some s
  pub get_int64-int_node : (i : ℤ) → json.get_int64 (int_node i) ≡ some i
  pub get_double-double_node : (x : Q) → json.get_double (double_node x) ≡ some x
  pub get_array-array_node : (l : List json.Node) → json.get_array (array_node l) ≡ some l
  pub get_object-object_node :
      (m : List (String × json.Node)) → json.get_object (object_node m) ≡ some (object_node m)
  pub at-object_node :
      (m : List (String × json.Node)) (key : String) → json.at (object_node m) key ≡ find key m
