-- ===== src/Machine/Laws.antt =====
-- What a dispense command asks for.
use cocktail_maker.Prelude.{
  ◌≡◌, ◌⊎◌, inl, inr, refl, ap, sym, ◌∙◌, List, [], ◌∷◌, Option, none, some, String, true, false, ℕ,
}
use cocktail_maker.Prelude.Expected.{Expected, value, unexpected}
use cocktail_maker.Prelude.Int.{ℤ}
use cocktail_maker.Quantity.{Double, IsExact, ◌⊕◌, ◌⊖◌}
use cocktail_maker.Quantity.Laws.{nought_add, cancel_add}
use cocktail_maker.Ingredient.{IngredientStore}
use cocktail_maker.StationConfig.{Mapping}
use cocktail_maker.Pods.{
  PodInfo, PodRegistry, Dispenser, DispenserError, create_dispenser_for_ingredient,
}
use cocktail_maker.Recipe.{DispenseCommand}
use cocktail_maker.Recipe.View.{UiCommand, transform_command, not_started}
use cocktail_maker.Errors.{Exception, dispenser_empty_error}
use cocktail_maker.Machine.{
  Request, pour, popup, thrown, first_pour, execute_manual, refill, execute_dispense,
}

-- The popup for a refill.
abbrev pub refill_popup : UiCommand
refill_popup = record { id = 0; status = not_started; text = "Refill ingredient"; value = "" }

module _ {Q : Type 0} ⦃d : Double Q⦄ (tolerance : Q) (show_volume : Q → String)
    (store : IngredientStore) (lock : ℕ → Option PodInfo) (pods : PodRegistry) (config : Mapping)
    (dispense : List (Request Q) → Dispenser → Q → Expected Exception Q)
    (confirm : List (Request Q) → UiCommand → Option Exception) (c : DispenseCommand Q) where
  abbrev pub run : List (Request Q) × Option Exception
  run = execute_dispense tolerance show_volume store lock pods config dispense confirm [] c

  -- What the first pouring gave counts as the given volume, and a refill follows.
  abbrev pub IsShort : Expected Exception Q → Q → Type 0
  IsShort r dispensed =
      ((r ≡ value dispensed) × (d.lt tolerance (d.abs (dispensed ⊖ c.volume)) ≡ true))
      ⊎ ((pod_id : String) × (k : ℤ) × ((r ≡ unexpected (dispenser_empty_error pod_id k))
            × (dispensed ≡ d.nought)))

  short_lem :
      (r : Expected Exception Q) (dispensed : Q)
      → IsShort r dispensed
      → first_pour tolerance c.volume r
        ≡ value (record { dispensed = dispensed; needs_refill = true })
  unfolding first_pour
  short_lem r dispensed (inl (e, over)) = rw (e, over) refl
  short_lem r dispensed (inr (pod_id, k, (e, none_left))) = rw (e, none_left) refl

  -- After a first pouring that misses the volume by more than the tolerance, or finds the dispenser
  -- empty, and a confirmed popup, the volume less what counts as dispensed is asked for.
  pub execute_dispense-refills :
      (dispenser : Dispenser) (dispensed : Q)
      → IsExact Q
      → create_dispenser_for_ingredient lock pods config c.ingredient ≡ value dispenser
      → IsShort (dispense [] dispenser c.volume) dispensed
      → confirm (pour dispenser c.volume ∷ []) refill_popup ≡ none
      → (rest : Q) × ((run.0
            ≡ pour dispenser c.volume ∷ popup refill_popup ∷ pour dispenser rest ∷ [])
          × (rest ⊕ dispensed ≡ c.volume))
  unfolding execute_dispense refill execute_manual transform_command
  execute_dispense-refills dispenser dispensed exact there short ok = (
    c.volume ⊖ dispensed,
    (
      rw (execute_dispense, there, short_lem (dispense [] dispenser c.volume) dispensed short, ok)
          refl,
      exact.sub_add c.volume dispensed,
    ),
  )

  -- Within the tolerance nothing more is asked, and the command completes.
  pub execute_dispense-enough :
      (dispenser : Dispenser) (v : Q)
      → create_dispenser_for_ingredient lock pods config c.ingredient ≡ value dispenser
      → dispense [] dispenser c.volume ≡ value v
      → d.lt tolerance (d.abs (v ⊖ c.volume)) ≡ false
      → run ≡ (pour dispenser c.volume ∷ [], none)
  unfolding execute_dispense first_pour
  execute_dispense-enough dispenser v there poured within =
      rw (execute_dispense, there, poured, within) refl

  -- Where the first pouring gave more than the volume and the tolerance, the volume that is poured
  -- again is negative: with exact arithmetic it and the surplus add up to nothing.
  pub execute_dispense-surplus :
      (dispenser : Dispenser) (surplus : Q)
      → IsExact Q
      → create_dispenser_for_ingredient lock pods config c.ingredient ≡ value dispenser
      → dispense [] dispenser c.volume ≡ value (c.volume ⊕ surplus)
      → d.lt tolerance (d.abs (c.volume ⊕ surplus ⊖ c.volume)) ≡ true
      → confirm (pour dispenser c.volume ∷ []) refill_popup ≡ none
      → (rest : Q) × ((run.0
            ≡ pour dispenser c.volume ∷ popup refill_popup ∷ pour dispenser rest ∷ [])
          × (rest ⊕ surplus ≡ d.nought))
  execute_dispense-surplus dispenser surplus exact there poured over ok =
      let (rest, (asked, sum)) =
        execute_dispense-refills dispenser (c.volume ⊕ surplus) exact there (inl (poured, over))
          ok in
      let e : rest ⊕ surplus ⊕ c.volume ≡ d.nought ⊕ c.volume =
        exact.add_assoc rest surplus c.volume
        ∙ ap (λ x. rest ⊕ x) (exact.add_comm surplus c.volume)
        ∙ sum
        ∙ sym (nought_add exact c.volume) in
      (rest, (asked, cancel_add exact (rest ⊕ surplus) d.nought c.volume e))

  -- An ingredient without a dispenser makes the command throw before anything is asked.
  pub execute_dispense-throws :
      (e : DispenserError)
      → create_dispenser_for_ingredient lock pods config c.ingredient ≡ unexpected e
      → run ≡ ([], some (thrown e))
  unfolding execute_dispense
  execute_dispense-throws e missing = rw (execute_dispense, missing) refl
