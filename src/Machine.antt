-- ===== src/Machine.antt =====
-- `MachineAdapter::execute_command` of `gui/src/maschine_adapter.cpp`: what a command asks of the pods and
-- of the user. The dispenser that pours and the popup are parameters, which know what was asked so far.
pub mod Laws
pub mod Completed
use cocktail_maker.Prelude.{
  List, [], ◌∷◌, ◌++◌, Option, none, some, String, Bool, true, false, if◌then◌else◌, ℕ,
}
use cocktail_maker.Prelude.Expected.{Expected, value, unexpected}
use cocktail_maker.Quantity.{Double, ◌⊕◌, ◌⊖◌, ◌⊗◌}
use cocktail_maker.Ingredient.{IngredientStore}
use cocktail_maker.StationConfig.{Mapping}
use cocktail_maker.Pods.{
  PodInfo, PodRegistry, Dispenser, DispenserError, dispenser_not_found, not_assigned,
  create_dispenser_for_ingredient,
}
use cocktail_maker.Recipe.{Command, manual, ManualCommand, DispenseCommand}
use cocktail_maker.Recipe.View.{transform_command, UiCommand}
use cocktail_maker.Errors.{
  Exception, dispenser_empty_error, dispenser_not_found_error, ingredient_not_assigned_error,
  other_error,
}

-- What is asked, in order: to pour a volume from a dispenser, or the user to confirm a popup.
pub data Request (Q : Type 0) : Type 0 where
  pour : Dispenser → Q → Request Q
  popup : UiCommand → Request Q

-- The exception that `create_dispenser_for_ingredient` throws.
unfoldable pub thrown : DispenserError → Exception
thrown (dispenser_not_found pod_id d) = dispenser_not_found_error pod_id d
thrown (not_assigned id) = ingredient_not_assigned_error id

-- How the first pouring leaves the command: the volume that counts as dispensed, whether a refill is
-- needed.
pub record Poured (Q : Type 0) : Type 0 where
  pub dispensed : Q
  pub needs_refill : Bool

module _ {Q : Type 0} ⦃d : Double Q⦄ where
  -- The two branches of the `try` block; any other exception leaves the command.
  unfoldable pub first_pour : Q → Q → Expected Exception Q → Expected Exception (Poured Q)
  first_pour tolerance volume (value dispensed) =
      value (record {
        dispensed = dispensed;
        needs_refill = d.lt tolerance (d.abs (dispensed ⊖ volume));
      })
  first_pour tolerance volume (unexpected (dispenser_empty_error pod_id k)) =
      value (record { dispensed = d.nought; needs_refill = true })
  first_pour tolerance volume (unexpected e) = unexpected e

abbrev pub error_of : {A : Type 0} → Expected Exception A → Option Exception
error_of (value a) = none
error_of (unexpected e) = some e

module _ {Q : Type 0} ⦃d : Double Q⦄ (tolerance : Q) (show_volume : Q → String)
    (store : IngredientStore) (lock : ℕ → Option PodInfo) (pods : PodRegistry) (config : Mapping)
    (dispense : List (Request Q) → Dispenser → Q → Expected Exception Q)
    (confirm : List (Request Q) → UiCommand → Option Exception) where
  -- The requests after the command, and the exception that leaves it, if any.
  unfoldable pub execute_manual :
      List (Request Q) → ManualCommand → List (Request Q) × Option Exception
  unfolding transform_command
  execute_manual log m = elim (transform_command show_volume store (manual m)) [
    | none ↦ (log, some (other_error "Command cannot be transformed into a ManualCommand"))
    | some ui ↦ (log ++ (popup ui ∷ []), confirm log ui)
  ]

  -- The branch that needs a refill: the user confirms, then the rest is poured.
  unfoldable pub refill : List (Request Q) → Dispenser → Q → List (Request Q) × Option Exception
  unfolding execute_manual
  refill log dispenser rest =
      let asked = execute_manual log (record { id = 0; instruction = "Refill ingredient" }) in
      elim asked.1 [
        | some e ↦ (asked.0, some e)
        | none ↦ (asked.0 ++ (pour dispenser rest ∷ []), error_of (dispense asked.0 dispenser rest))
      ]

  unfoldable pub execute_dispense :
      List (Request Q) → DispenseCommand Q → List (Request Q) × Option Exception
  unfolding first_pour refill thrown create_dispenser_for_ingredient
  execute_dispense log c = elim (create_dispenser_for_ingredient lock pods config c.ingredient) [
    | unexpected e ↦ (log, some (thrown e))
    | value dispenser ↦
        let poured = log ++ (pour dispenser c.volume ∷ []) in
        elim (first_pour tolerance c.volume (dispense log dispenser c.volume)) [
          | unexpected e ↦ (poured, some e)
          | value p ↦
              if p.needs_refill
              then refill poured dispenser (c.volume ⊖ p.dispensed)
              else (poured, none)
        ]
  ]
