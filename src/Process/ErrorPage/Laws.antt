-- ===== src/Process/ErrorPage/Laws.antt =====
-- What the customer and the staff are told.
use cocktail_maker.Prelude.{
  ◌≡◌, ◌≢◌, ◌↔◌, ◌⊎◌, inl, inr, refl, Bool, true, false, none, some, String, String_eq, arith,
  Option-cases,
}
use cocktail_maker.Prelude.Assoc.{Unique}
use cocktail_maker.Prelude.Expected.{Expected, value, unexpected}
use cocktail_maker.Prelude.Int.{ℤ}
use cocktail_maker.Ingredient.{Ingredient, IngredientStore, find_by_id}
use cocktail_maker.StationConfig.{
  Mapping, PodDispenser, OutOfRange, out_of_range, find_ingredient_by_dispenser,
  find_dispenser_for_ingredient,
}
use cocktail_maker.StationConfig.Laws.{find_ingredient-dispenser, find_ingredient-none}
use cocktail_maker.Errors.{Exception, dispenser_empty_error, ingredient_not_assigned_error}
use cocktail_maker.Process.ErrorPage.{
  ErrorPageData, ingredient_category, make_pod_receive_error, make_fallback, ingredient_of,
  make_dispenser_empty, make_ingredient_not_assigned, make_dispenser_not_found, caught_page, make,
}

-- An ingredient is out or has no dispenser.
abbrev pub is_about_ingredient : Exception → Bool
is_about_ingredient (dispenser_empty_error pod_id k) = true
is_about_ingredient (ingredient_not_assigned_error id) = true
is_about_ingredient _ = false

lookup-cases :
    (r : Expected OutOfRange String)
    → (r ≡ unexpected out_of_range) ⊎ ((j : String) × (r ≡ value j))
lookup-cases (value j) = inr (j, refl)
lookup-cases (unexpected out_of_range) = inl refl

module _ (format_int : ℤ → String) (what : Exception → String) (station_config : Mapping)
    (store : IngredientStore) where
  abbrev page : Exception → ErrorPageData
  page = caught_page format_int what station_config store

  pub page-category :
      (e : Exception)
      → ((page e).item_category ≡ ingredient_category) ↔ (is_about_ingredient e ≡ true)
  unfolding caught_page make make_dispenser_empty make_ingredient_not_assigned
      make_dispenser_not_found make_fallback make_pod_receive_error
  page-category e = ground arith

  -- The page for an empty dispenser names an ingredient that is assigned to it, where one is, the
  -- ingredients of the mapping are distinct, and all of them are in the store.
  pub make_dispenser_empty-named :
      (d : PodDispenser) (id : String)
      → Unique station_config
      → ((j : String)
          → find_dispenser_for_ingredient station_config j ≡ value d
          → find_by_id store j ≢ none)
      → find_dispenser_for_ingredient station_config id ≡ value d
      → (j : String) × (i : Ingredient) × ((find_dispenser_for_ingredient station_config j
            ≡ value d)
          × ((find_by_id store j ≡ some i)
              × ((make_dispenser_empty format_int what station_config store d.pod_id
                    d.dispenser_id).item_name
                  ≡ i.display_name)))
  unfolding make_dispenser_empty ingredient_of
  make_dispenser_empty-named d id u known assigned =
      elim (lookup-cases (find_ingredient_by_dispenser station_config d)) [
        | inl missing ↦ absurd (find_ingredient-none station_config d id missing assigned)
        | inr (j, found) ↦
            let back = find_ingredient-dispenser station_config d j u found in
            elim (Option-cases (find_by_id store j)) [
              | inl gone ↦ absurd (known j back gone)
              | inr (i, there) ↦ (
                j,
                i,
                (back, (there, rw (make_dispenser_empty, ingredient_of, found, there) refl)),
              )
            ]
      ]
