-- ===== src/Machine/Completed.antt =====
-- How a dispense command that completes was poured.
use cocktail_maker.Prelude.{◌≡◌, List, [], ◌∷◌, Option, String, true, false, ℕ}
use cocktail_maker.Prelude.Expected.{Expected, value, unexpected}
use cocktail_maker.Prelude.Int.{ℤ}
use cocktail_maker.Quantity.{Double, ◌⊕◌, ◌⊖◌}
use cocktail_maker.Ingredient.{IngredientStore}
use cocktail_maker.StationConfig.{Mapping}
use cocktail_maker.Pods.{PodInfo, PodRegistry, Dispenser}
use cocktail_maker.Recipe.{DispenseCommand}
use cocktail_maker.Recipe.View.{UiCommand}
use cocktail_maker.Errors.{Exception, dispenser_empty_error}
use cocktail_maker.Machine.{Request, pour, popup, execute_dispense}
use cocktail_maker.Machine.Laws.{refill_popup}

module _ {Q : Type 0} ⦃d : Double Q⦄ (tolerance : Q) (show_volume : Q → String)
    (store : IngredientStore) (lock : ℕ → Option PodInfo) (pods : PodRegistry) (config : Mapping)
    (dispense : List (Request Q) → Dispenser → Q → Expected Exception Q)
    (confirm : List (Request Q) → UiCommand → Option Exception) (c : DispenseCommand Q) where
  abbrev result : List (Request Q) × Option Exception
  result = execute_dispense tolerance show_volume store lock pods config dispense confirm [] c

  -- How a command that completes was poured.
  abbrev pub second_log : Dispenser → List (Request Q)
  second_log dispenser = pour dispenser c.volume ∷ popup refill_popup ∷ []

  abbrev pub PouredOnce : Dispenser → Type 0
  PouredOnce dispenser =
      (v : Q) × ((dispense [] dispenser c.volume ≡ value v)
        × ((d.lt tolerance (d.abs (v ⊖ c.volume)) ≡ false)
            × (result.0 ≡ pour dispenser c.volume ∷ [])))

  abbrev pub PouredRest : Dispenser → Type 0
  PouredRest dispenser =
      (v : Q) × (w : Q) × (rest : Q) × ((dispense [] dispenser c.volume ≡ value v)
        × ((d.lt tolerance (d.abs (v ⊖ c.volume)) ≡ true)
            × ((dispense (second_log dispenser) dispenser rest ≡ value w)
                × ((rest ⊕ v ≡ c.volume)
                    × (result.0
                        ≡ pour dispenser c.volume
                          ∷ popup refill_popup
                          ∷ pour dispenser rest
                          ∷ [])))))

  abbrev pub PouredAgain : Dispenser → Type 0
  PouredAgain dispenser =
      (pod_id : String) × (k : ℤ) × (w : Q) × ((dispense [] dispenser c.volume
          ≡ unexpected (dispenser_empty_error pod_id k))
        × ((dispense (second_log dispenser) dispenser c.volume ≡ value w)
            × (result.0
                ≡ pour dispenser c.volume ∷ popup refill_popup ∷ pour dispenser c.volume ∷ [])))
