-- ===== src/Glass.antt =====
-- `cocktail-maker/glass.cppm` and `glass.cpp`. A volume is its number of millilitres: the conversion
-- between millilitres and litres is taken as exact. The order of the volumes is a parameter, and the
-- sorting and searching of the C++ library is written out on lists.
pub mod Volumes
pub mod Store
pub mod File
pub mod Loaded
pub mod Calls
pub mod Window
use cocktail_maker.Prelude.{
  ℕ, zero, suc, Bool, true, false, List, [], ◌∷◌, map, Option, none, some, String, String_eq, ◌==◌,
  Comparable, if◌then◌else◌, get_elem?, and_then,
}
use cocktail_maker.Prelude.Assoc.{find, insert_or_assign, emplace}
use cocktail_maker.Prelude.Expected.{Expected, value, unexpected, ◌>>=◌, or_throw}
use cocktail_maker.Prelude.Int.{ℤ, pos}
use cocktail_maker.Json.{Json, Builder}
use cocktail_maker.Ingredient.{string_at, DirectoryEntry, is_json_file}

pub record GlassIconData (F : Type 0) : Type 0 where
  pub viewbox_width : F
  pub viewbox_height : F
  pub outline : String
  pub rim : List String

pub record Glass (Q F : Type 0) : Type 0 where
  pub id : String
  pub display_name : String
  pub common_volumes : List Q
  pub active_volumes : List Q
  pub icon : GlassIconData F

abbrev pub Glasses : Type 0 → Type 0 → Type 0
Glasses Q F = List (String × Glass Q F)

module _ {Q : Type 0} ⦃e : Comparable Q⦄ (less : Q → Q → Bool) where
  -- `std::ranges::lower_bound` on a sorted range: the place of the first volume that is not less.
  unfoldable pub lower_bound : List Q → Q → ℕ
  lower_bound [] v = 0
  lower_bound (x ∷ xs) v = let n = lower_bound xs v in if less x v then suc n else 0

  -- `active_volumes.insert(position, v)`
  abbrev pub insert_at : ℕ → Q → List Q → List Q
  insert_at zero v xs = v ∷ xs
  insert_at (suc n) v [] = v ∷ []
  insert_at (suc n) v (x ∷ xs) = x ∷ insert_at n v xs

  -- The volumes with `v` where it is not there yet.
  unfoldable pub add_to : List Q → Q → Option (List Q)
  unfolding lower_bound
  add_to xs v =
      let n = lower_bound xs v in
      elim (get_elem? xs n) [
        | none ↦ some (insert_at n v xs)
        | some w ↦ if w == v then none else some (insert_at n v xs)
      ]

  -- The volumes without the first `v`, where there is one.
  unfoldable pub remove_from : List Q → Q → Option (List Q)
  remove_from [] v = none
  remove_from (x ∷ xs) v =
      let rest = remove_from xs v in
      if x == v then some xs else elim rest [ some ys ↦ some (x ∷ ys) | none ↦ none ]

  -- `std::ranges::sort`
  unfoldable pub insert_sorted : Q → List Q → List Q
  insert_sorted v [] = v ∷ []
  insert_sorted v (x ∷ xs) =
      let rest = insert_sorted v xs in if less x v then x ∷ rest else v ∷ x ∷ xs

  unfoldable pub sort : List Q → List Q
  unfolding insert_sorted
  sort [] = []
  sort (x ∷ xs) = insert_sorted x (sort xs)

  -- `std::ranges::unique`: of equal neighbours one is left.
  unfoldable pub unique : List Q → List Q
  unique [] = []
  unique (x ∷ []) = x ∷ []
  unique (x ∷ y ∷ ys) = let rest = unique (y ∷ ys) in if x == y then rest else x ∷ rest

-- A glass whose volumes change, in its place of the map.
abbrev pub set_active : {Q F : Type 0} → Glasses Q F → Glass Q F → String → List Q → Glasses Q F
set_active glasses glass id volumes =
    insert_or_assign id (record glass { active_volumes = volumes }) glasses

module _ {Q F Disk : Type 0} ⦃e : Comparable Q⦄ (less : Q → Q → Bool)
    (save_glass_active_volumes : Glasses Q F → Disk → Disk) where
  unfoldable pub add_active_volume : Glasses Q F → Disk → String → Q → Glasses Q F × Disk × Bool
  unfolding add_to
  add_active_volume glasses disk id volume = elim (find id glasses) [
    | none ↦ (glasses, disk, false)
    | some glass ↦ elim (add_to less glass.active_volumes volume) [
      | none ↦ (glasses, disk, false)
      | some volumes ↦
          let next = set_active glasses glass id volumes in
          (next, save_glass_active_volumes next disk, true)
    ]
  ]

  unfoldable pub remove_active_volume : Glasses Q F → Disk → String → Q → Glasses Q F × Disk × Bool
  unfolding remove_from
  remove_active_volume glasses disk id volume = elim (find id glasses) [
    | none ↦ (glasses, disk, false)
    | some glass ↦ elim (remove_from less glass.active_volumes volume) [
      | none ↦ (glasses, disk, false)
      | some volumes ↦
          let next = set_active glasses glass id volumes in
          (next, save_glass_active_volumes next disk, true)
    ]
  ]
