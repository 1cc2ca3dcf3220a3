-- ===== src/Glass/Window.antt =====
-- `gui/src/glass_context_bridge.cppm`: the list of glasses of the window, each with the list of its
-- active volumes, next to the store of Glass. What the views are told of a changed row is left out.
pub mod Entries
pub mod Laws
use cocktail_maker.Prelude.{
  Bool, true, false, List, [], ◌∷◌, ◌++◌, map, Option, none, some, String, String_eq, ◌==◌,
  Comparable, if◌then◌else◌,
}
use cocktail_maker.Prelude.Assoc.{find}
use cocktail_maker.Prelude.Int.{ℤ}
use cocktail_maker.Glass.{
  GlassIconData, Glass, Glasses, add_to, remove_from, sort, add_active_volume, remove_active_volume,
}

abbrev pub is_empty : {A : Type 0} → List A → Bool
is_empty [] = true
is_empty (x ∷ xs) = false

pub record Entry (Q F : Type 0) : Type 0 where
  pub id : String
  pub display_name : String
  pub common_volumes : List String
  pub active_volumes : List Q
  pub icon : GlassIconData F

module _ {Q F : Type 0} where
  unfoldable pub is_listed : List (Entry Q F) → String → Bool
  is_listed [] id = false
  is_listed (e ∷ entries) id = if e.id == id then true else is_listed entries id

  -- `GlassListModel::remove`
  unfoldable pub remove_entry : List (Entry Q F) → String → List (Entry Q F)
  remove_entry [] id = []
  remove_entry (e ∷ entries) id =
      let rest = remove_entry entries id in if e.id == id then entries else e ∷ rest

  -- A change of the list that `volume_model` gives, where there is one.
  unfoldable pub change_volumes : (List Q → List Q) → List (Entry Q F) → String → List (Entry Q F)
  change_volumes change [] id = []
  change_volumes change (e ∷ entries) id =
      let rest = change_volumes change entries id in
      if e.id == id
      then record e { active_volumes = change e.active_volumes } ∷ entries
      else e ∷ rest

module _ {Q : Type 0} ⦃e : Comparable Q⦄ (less : Q → Q → Bool) where
  -- `VolumeModel::add` and `VolumeModel::remove`
  unfoldable pub volume_model_add : Q → List Q → List Q
  unfolding add_to
  volume_model_add v volumes = elim (add_to less volumes v) [ none ↦ volumes | some more ↦ more ]

  unfoldable pub volume_model_remove : Q → List Q → List Q
  unfolding remove_from
  volume_model_remove v volumes = elim (remove_from less volumes v) [
    | none ↦ volumes
    | some rest ↦ rest
  ]

  module _ {F : Type 0} (format_ml : Q → String) where
    -- `GlassListModel::add`
    unfoldable pub add_entry : List (Entry Q F) → String → Glass Q F → List (Entry Q F)
    unfolding is_listed sort
    add_entry entries id glass =
        if is_listed entries id
        then entries
        else entries
          ++ (record {
            id = id;
            display_name = glass.display_name;
            common_volumes = map format_ml glass.common_volumes;
            active_volumes = sort less glass.active_volumes;
            icon = glass.icon;
          }
              ∷ [])

    -- The glasses that `register_ui_callbacks` lists.
    unfoldable pub list_glasses : List (Entry Q F) → Glasses Q F → List (Entry Q F)
    unfolding add_entry
    list_glasses entries [] = entries
    list_glasses entries ((_, glass) ∷ glasses) =
        let none_active = list_glasses entries glasses in
        let listed = list_glasses (add_entry entries glass.id glass) glasses in
        if is_empty glass.active_volumes then none_active else listed

-- The store with its file, and the list of the window.
pub record GlassContext (Q F Disk : Type 0) : Type 0 where
  pub glasses : Glasses Q F
  pub disk : Disk
  pub entries : List (Entry Q F)

-- `register_ui_callbacks`, as far as the list goes.
unfoldable pub register_ui_callbacks :
    {Q F Disk : Type 0} ⦃e : Comparable Q⦄
    → (Q → Q → Bool)
    → (Q → String)
    → Glasses Q F
    → Disk
    → GlassContext Q F Disk
unfolding list_glasses
register_ui_callbacks less format_ml glasses disk = record {
  glasses = glasses;
  disk = disk;
  entries = list_glasses less format_ml [] glasses;
}

pub data UiCall : Type 0 where
  add_glass : String → UiCall
  remove_glass : String → UiCall
  add_volume_from_glass : String → ℤ → UiCall
  remove_volume_from_glass : String → ℤ → UiCall

module _ {Q F Disk : Type 0} ⦃e : Comparable Q⦄ (less : Q → Q → Bool) (format_ml : Q → String)
    (to_litre : ℤ → Q) (save : Glasses Q F → Disk → Disk) where
  unfoldable pub on_ui_add_glass : GlassContext Q F Disk → String → GlassContext Q F Disk
  unfolding add_entry
  on_ui_add_glass c id = elim (find id c.glasses) [
    | none ↦ c
    | some glass ↦ record c { entries = add_entry less format_ml c.entries id glass }
  ]

  unfoldable pub on_ui_add_glass_volume : GlassContext Q F Disk → String → Q → GlassContext Q F Disk
  unfolding add_active_volume change_volumes volume_model_add
  on_ui_add_glass_volume c id volume =
      let (glasses, disk, store_updated) = add_active_volume less save c.glasses c.disk id volume in
      record {
        glasses = glasses;
        disk = disk;
        entries =
            if store_updated
            then change_volumes (volume_model_add less volume) c.entries id
            else c.entries;
      }

  unfoldable pub on_ui_remove_glass_volume :
      GlassContext Q F Disk → String → Q → GlassContext Q F Disk
  unfolding remove_active_volume change_volumes volume_model_remove
  on_ui_remove_glass_volume c id volume =
      let (glasses, disk, store_updated) =
        remove_active_volume less save c.glasses c.disk id volume in
      record {
        glasses = glasses;
        disk = disk;
        entries =
            if store_updated
            then change_volumes (volume_model_remove less volume) c.entries id
            else c.entries;
      }

  unfoldable pub ui_call : GlassContext Q F Disk → UiCall → GlassContext Q F Disk
  unfolding on_ui_add_glass remove_entry on_ui_add_glass_volume on_ui_remove_glass_volume
  ui_call c (add_glass id) = on_ui_add_glass c id
  ui_call c (remove_glass id) = record c { entries = remove_entry c.entries id }
  ui_call c (add_volume_from_glass id ml) = on_ui_add_glass_volume c id (to_litre ml)
  ui_call c (remove_volume_from_glass id ml) = on_ui_remove_glass_volume c id (to_litre ml)

  unfoldable pub ui_calls : GlassContext Q F Disk → List UiCall → GlassContext Q F Disk
  unfolding ui_call
  ui_calls c [] = c
  ui_calls c (x ∷ calls) = ui_calls (ui_call c x) calls
