-- ===== src/Glass/File.antt =====
-- The parsers, the loaders and the file of the active volumes of `cocktail-maker/glass.cpp`.
use cocktail_maker.Prelude.{
  Bool, List, [], ◌∷◌, map, Option, none, some, String, String_eq, Comparable, if◌then◌else◌,
  and_then,
}
use cocktail_maker.Prelude.Assoc.{find, emplace}
use cocktail_maker.Prelude.Expected.{Expected, value, unexpected, ◌>>=◌, or_throw}
use cocktail_maker.Prelude.Int.{ℤ, pos}
use cocktail_maker.Json.{Json, Builder}
use cocktail_maker.Ingredient.{string_at, DirectoryEntry, is_json_file}
use cocktail_maker.Glass.{GlassIconData, Glass, Glasses, sort, unique, set_active}

-- A simdjson error.
pub data GlassError : Type 0 where
  json_error : GlassError
  failed_to_parse : String → GlassError

-- `from_int64` reads millilitres, `to_float` narrows a double.
module _ {Q F : Type 0} (json : Json Q) (from_int64 : ℤ → Q) (to_float : Q → F) where
  open json use {Node, at, get_string, get_double, get_int64, get_array, get_object}

  unfoldable pub parse_volumes : List Node → Expected GlassError (List Q)
  parse_volumes [] = value []
  parse_volumes (vol ∷ rest) = do
    ml ← or_throw (get_int64 vol) json_error
    volumes ← parse_volumes rest
    value (from_int64 ml ∷ volumes)

  unfoldable pub parse_rim : List Node → Expected GlassError (List String)
  parse_rim [] = value []
  parse_rim (rim_str ∷ rest) = do
    rim ← or_throw (get_string rim_str) json_error
    rims ← parse_rim rest
    value (rim ∷ rims)

  -- The optional member `rim`.
  abbrev pub rim_of : Node → List Node
  rim_of icon_obj = elim (and_then (at icon_obj "rim") get_array) [ none ↦ [] | some arr ↦ arr ]

  unfoldable pub parse_icon : Node → Expected GlassError (GlassIconData F)
  unfolding parse_rim
  parse_icon icon_obj = do
    viewbox_width ← or_throw (and_then (at icon_obj "viewbox_width") get_double) json_error
    viewbox_height ← or_throw (and_then (at icon_obj "viewbox_height") get_double) json_error
    outline ← or_throw (string_at json icon_obj "outline") json_error
    rim ← parse_rim (rim_of icon_obj)
    value (record {
      viewbox_width = to_float viewbox_width;
      viewbox_height = to_float viewbox_height;
      outline = outline;
      rim = rim;
    })

  unfoldable pub parse_glass : Node → Expected GlassError (Glass Q F)
  unfolding parse_volumes parse_icon
  parse_glass doc = do
    obj ← or_throw (get_object doc) json_error
    id ← or_throw (string_at json obj "id") json_error
    display_name ← or_throw (string_at json obj "display_name") json_error
    common_arr ← or_throw (and_then (at obj "common_volumes_ml") get_array) json_error
    common_volumes ← parse_volumes common_arr
    icon_obj ← or_throw (and_then (at obj "icon") get_object) json_error
    icon ← parse_icon icon_obj
    value (record {
      id = id;
      display_name = display_name;
      common_volumes = common_volumes;
      active_volumes = [];
      icon = icon;
    })

  load_glass_file : DirectoryEntry Node → Expected GlassError (Glass Q F)
  unfolding parse_glass
  load_glass_file entry = elim (and_then entry.document (λ doc. some (parse_glass doc))) [
    | some (value glass) ↦ value glass
    | _ ↦ unexpected (failed_to_parse entry.path)
  ]

  unfoldable pub load_glasses_from_dir :
      List (DirectoryEntry Node) → Expected GlassError (List (Glass Q F))
  unfolding load_glass_file
  load_glasses_from_dir [] = value []
  load_glasses_from_dir (entry ∷ dir) =
      let rest = load_glasses_from_dir dir in
      if is_json_file entry then (do g ← load_glass_file entry; gs ← rest; value (g ∷ gs)) else rest

module _ {Q F : Type 0} (json : Json Q) (builder : Builder json) where
  open builder use {text_node, int_node, double_node, array_node, object_node}

  abbrev pub glass_row : String × Glass Q F → json.Node
  glass_row (glass_id, glass) = object_node (
      ("glass_id", text_node glass_id)
      ∷ ("active_volumes", array_node (map double_node glass.active_volumes))
      ∷ [])

  -- The document that `save_glass_active_volumes` writes.
  unfoldable pub saved_volumes : Glasses Q F → json.Node
  saved_volumes glasses =
      object_node
        (("version", int_node (pos 1)) ∷ ("glasses", array_node (map glass_row glasses)) ∷ [])

module _ {Q : Type 0} (json : Json Q) where
  open json use {Node, at, get_double, get_array, get_object}

  -- A malformed volume is skipped.
  unfoldable pub read_volumes : List Node → List Q
  read_volumes [] = []
  read_volumes (node ∷ nodes) =
      let rest = read_volumes nodes in elim (get_double node) [ none ↦ rest | some x ↦ x ∷ rest ]

  unfoldable pub read_glass_entry : Node → Option (String × List Node)
  unfolding string_at
  read_glass_entry node = and_then (get_object node) (λ entry.
      and_then (string_at json entry "glass_id") (λ glass_id.
        and_then (and_then (at entry "active_volumes") get_array)
          (λ volumes. some (glass_id, volumes))))

module _ {Q F : Type 0} ⦃e : Comparable Q⦄ (less : Q → Q → Bool) (json : Json Q) where
  open json use {Node, at, get_array}

  -- The body of the loop: a malformed entry, or one of an unknown glass, is skipped.
  unfoldable pub load_glass_entry : Glasses Q F → Node → Glasses Q F
  unfolding read_glass_entry read_volumes sort unique
  load_glass_entry glasses node = elim (read_glass_entry json node) [
    | none ↦ glasses
    | some (glass_id, volumes) ↦ elim (find glass_id glasses) [
      | none ↦ glasses
      | some glass ↦
          set_active glasses glass glass_id (unique less (sort less (read_volumes json volumes)))
    ]
  ]

  unfoldable pub load_glass_entries : Glasses Q F → List Node → Glasses Q F
  load_glass_entries glasses [] = glasses
  load_glass_entries glasses (node ∷ nodes) =
      load_glass_entries (load_glass_entry glasses node) nodes

  -- Each early return leaves the glasses as they are.
  unfoldable pub load_glass_active_volumes : Glasses Q F → Option Node → Glasses Q F
  unfolding load_glass_entries
  load_glass_active_volumes glasses file =
      elim (and_then file (λ doc. and_then (at doc "glasses") get_array)) [
        | none ↦ glasses
        | some entries ↦ load_glass_entries glasses entries
      ]

  unfoldable pub emplace_glasses : List (Glass Q F) → Glasses Q F → Glasses Q F
  emplace_glasses [] m = m
  emplace_glasses (glass ∷ glasses) m = emplace_glasses glasses (emplace glass.id glass m)

  -- What the store held is cleared.
  unfoldable pub init_glasses : Glasses Q F → List (Glass Q F) → Option Node → Glasses Q F
  unfolding emplace_glasses
  init_glasses store glasses file = load_glass_active_volumes (emplace_glasses glasses []) file
