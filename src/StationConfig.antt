-- ===== src/StationConfig.antt =====
-- `cocktail-maker/station_config.cppm` and `station_config.cpp`: which dispenser pours an ingredient.
-- The file system is a parameter: reading gives the parsed document, or `none` where the file is
-- missing, cannot be read or is no JSON.
pub mod Laws
pub mod Stored
use cocktail_maker.Prelude.{
  ◌≡◌, ◌↔◌, Bool, true, false, ◌&&◌, List, [], ◌∷◌, ◌++◌, map, Option, none, some, String,
  String_eq, ◌==◌, Comparable, if◌then◌else◌, and_then, and_then as ◌>>=◌, arith,
}
use cocktail_maker.Prelude.Assoc.{find, insert_or_assign}
use cocktail_maker.Prelude.Expected.{Expected, value, unexpected}
use cocktail_maker.Prelude.Int.{ℤ, pos, ℤ_eq, to_int32}
use cocktail_maker.Json.{Json, Builder}
use cocktail_maker.Ingredient.{IngredientStore, find_by_id, string_at}

pub record PodDispenser : Type 0 where
  pub pod_id : String
  pub dispenser_id : ℤ

abbrev pub same_dispenser : PodDispenser → PodDispenser → Bool
same_dispenser a b = a.pod_id == b.pod_id && a.dispenser_id == b.dispenser_id

pub same_dispenser_iff : (a b : PodDispenser) → (same_dispenser a b ≡ true) ↔ (a ≡ b)
same_dispenser_iff a b =
    ground
      (arith, String_eq.equal_iff a.pod_id b.pod_id, ℤ_eq.equal_iff a.dispenser_id b.dispenser_id)

instance abbrev pub PodDispenser_eq : Comparable PodDispenser
PodDispenser_eq = record { equal = same_dispenser; equal_iff = same_dispenser_iff }

abbrev pub Mapping : Type 0
Mapping = List (String × PodDispenser)

pub data NotAssigned : Type 0 where
  ingredient_not_assigned : String → NotAssigned

pub data OutOfRange : Type 0 where
  out_of_range : OutOfRange

unfoldable pub find_dispenser_for_ingredient : Mapping → String → Expected NotAssigned PodDispenser
find_dispenser_for_ingredient mapping ingredient_id = elim (find ingredient_id mapping) [
  | some pod_dispenser ↦ value pod_dispenser
  | none ↦ unexpected (ingredient_not_assigned ingredient_id)
]

unfoldable pub find_ingredient_by_dispenser : Mapping → PodDispenser → Expected OutOfRange String
find_ingredient_by_dispenser [] pod_dispenser = unexpected out_of_range
find_ingredient_by_dispenser ((id, d) ∷ mapping) pod_dispenser =
    let rest = find_ingredient_by_dispenser mapping pod_dispenser in
    if d == pod_dispenser then value id else rest

module _ {ℓ} {Q : Type ℓ} (json : Json Q) where
  open json use {Node, at, get_string, get_int64, get_array, get_object}

  -- One row of the file; `none` for a malformed one.
  unfoldable pub read_entry : Node → Option (String × PodDispenser)
  unfolding string_at
  read_entry node = do
    entry ← get_object node
    ingredient_id ← string_at json entry "ingredient_id"
    pod_id ← string_at json entry "pod_id"
    dispenser_id ← and_then (at entry "dispenser_id") get_int64
    some (ingredient_id, record { pod_id = pod_id; dispenser_id = to_int32 dispenser_id })

  module _ (store : IngredientStore) where
    -- The body of the loop over the rows.
    unfoldable pub load_entry : Mapping → Node → Mapping
    unfolding read_entry
    load_entry mapping node = elim (read_entry node) [
      | none ↦ mapping
      | some (id, pod_dispenser) ↦ elim (find_by_id store id) [
        | none ↦ mapping
        | some _ ↦ insert_or_assign id pod_dispenser mapping
      ]
    ]

    unfoldable pub load_entries : Mapping → List Node → Mapping
    load_entries mapping [] = mapping
    load_entries mapping (node ∷ nodes) = load_entries (load_entry mapping node) nodes

    -- `load_config_from_file`: each early return leaves the mapping as it was.
    unfoldable pub load_config_from_file : Mapping → Option Node → Mapping
    load_config_from_file mapping file =
        elim (and_then file (λ doc. and_then (at doc "mappings") get_array)) [
          | none ↦ mapping
          | some mappings ↦ load_entries [] mappings
        ]

  module _ (builder : Builder json) where
    open builder use {text_node, int_node, array_node, object_node}

    abbrev pub row : String × PodDispenser → Node
    row (ingredient_id, pod_dispenser) = object_node (
        ("ingredient_id", text_node ingredient_id)
        ∷ ("pod_id", text_node pod_dispenser.pod_id)
        ∷ ("dispenser_id", int_node pod_dispenser.dispenser_id)
        ∷ [])

    -- The document that `save_config_to_file` writes.
    unfoldable pub saved : Mapping → Node
    saved mapping =
        object_node
          (("version", int_node (pos 1)) ∷ ("mappings", array_node (map row mapping)) ∷ [])

    -- `write_file` writes the document, or leaves of the file what a failed write leaves.
    module _ {Disk : Type 0} (write_file : Node → Disk → Disk) (store : IngredientStore) where
      unfoldable pub update_dispenser_ingredient_mapping :
          Mapping → Disk → String → PodDispenser → Mapping × Disk
      unfolding saved
      update_dispenser_ingredient_mapping mapping disk ingredient_id pod_dispenser =
          let next = insert_or_assign ingredient_id pod_dispenser mapping in
          elim (find_by_id store ingredient_id) [
            | none ↦ (mapping, disk)
            | some _ ↦ (next, write_file (saved next) disk)
          ]
