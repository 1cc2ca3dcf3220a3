-- ===== src/Calibration/Laws.antt =====
-- Every calibration ends in success or with an error that the user sees.
use cocktail_maker.Prelude.{ℕ, ◌≡◌, ◌⊎◌, inl, inr, refl, List, [], ◌∷◌, Option, none, some, String}
use cocktail_maker.Prelude.Expected.{Expected, value, Expected-cases}
use cocktail_maker.Prelude.Int.{ℤ}
use cocktail_maker.Pods.{PodInfo, PodRegistry, Dispenser, pump, valve, dispenser_of_pod}
use cocktail_maker.Errors.{Exception}
use cocktail_maker.Calibration.{
  CalibrationStep, CalibrationStepStatus, step_running, step_success, step_error, load_cell_tare,
  load_cell_ref_weight, UiUpdate, status_update, calibration_error, pump_measured, no_dispenser,
  step_fails, async_dispatch_load_tare, async_dispatch_calibrate_load_cell_ref_weight,
  async_calibrate_pump,
}

-- The statuses of a step, in order, and the errors that are shown.
abbrev pub statuses : List UiUpdate → List CalibrationStepStatus
statuses [] = []
statuses (status_update step s ∷ us) = s ∷ statuses us
statuses (calibration_error text ∷ us) = statuses us
statuses (pump_measured text ∷ us) = statuses us

abbrev pub errors : List UiUpdate → List String
errors [] = []
errors (status_update step s ∷ us) = errors us
errors (calibration_error text ∷ us) = text ∷ errors us
errors (pump_measured text ∷ us) = errors us

-- A step runs and then succeeds without an error, or runs and then fails with one error.
abbrev pub IsDecided : List UiUpdate → Type 0
IsDecided us =
    ((statuses us ≡ step_running ∷ step_success ∷ []) × (errors us ≡ []))
    ⊎ ((statuses us ≡ step_running ∷ step_error ∷ []) × ((text : String) × (errors us ≡ text ∷ [])))

module _ {Q : Type 0} (what : Exception → String) (show_volume : Q → String)
    (lock : ℕ → Option PodInfo) (pods : PodRegistry) (pod_id : String) (dispenser_id : ℤ) where
  command-IsDecided :
      (step : CalibrationStep) (r : Option Exception)
      → IsDecided (
          status_update step step_running ∷ elim r [
            | none ↦ status_update step step_success ∷ []
            | some e ↦ step_fails step (what e)
          ])
  unfolding step_fails
  command-IsDecided step none = inl (refl, refl)
  command-IsDecided step (some e) = inr (refl, (what e, refl))

  -- Calibrating the load cell of a dispenser and setting it to zero are shown to run and then to have
  -- succeeded without an error, or to have failed with one error, whatever the pod does.
  pub load_cell-IsDecided :
      (tare : Dispenser → Option Exception) (calibrate : Dispenser → Q → Option Exception)
      (grams : Q)
      → IsDecided (async_dispatch_load_tare what show_volume lock pods pod_id dispenser_id tare)
        × IsDecided (
            async_dispatch_calibrate_load_cell_ref_weight what show_volume lock pods pod_id
              dispenser_id calibrate grams)
  unfolding async_dispatch_load_tare async_dispatch_calibrate_load_cell_ref_weight step_fails
  load_cell-IsDecided tare calibrate grams =
      elim (Expected-cases (dispenser_of_pod lock pods pod_id dispenser_id)) [
        | inl (e, missing) ↦
            rw (async_dispatch_load_tare, async_dispatch_calibrate_load_cell_ref_weight, missing)
              (inr (refl, (no_dispenser, refl)), inr (refl, (no_dispenser, refl)))
        | inr (d, there) ↦
            rw (async_dispatch_load_tare, async_dispatch_calibrate_load_cell_ref_weight, there)
              (
                command-IsDecided load_cell_tare (tare d),
                command-IsDecided load_cell_ref_weight (calibrate d grams),
              )
      ]

  -- Calibrating the pump of a pod is shown to run and then to have succeeded without an error, or to
  -- have failed with one error; only for a valve the assertion fails.
  pub async_calibrate_pump-IsDecided :
      (calibrate : ℤ → ℕ → Expected Exception Q) (steps : ℕ)
      → ((k : ℤ) × (dispenser_of_pod lock pods pod_id dispenser_id ≡ value (valve k)))
        ⊎ IsDecided
            (async_calibrate_pump what show_volume lock pods pod_id dispenser_id calibrate steps).0
  unfolding async_calibrate_pump step_fails
  async_calibrate_pump-IsDecided calibrate steps =
      elim (Expected-cases (dispenser_of_pod lock pods pod_id dispenser_id)) [
        | inl (e, missing) ↦
            inr (rw (async_calibrate_pump, missing) (inr (refl, (no_dispenser, refl))))
        | inr (valve k, there) ↦ inl (k, there)
        | inr (pump k, there) ↦ inr (
            rw (async_calibrate_pump, there)
              (elim (Expected-cases (calibrate k steps)) [
                | inl (e, thrown) ↦ rw thrown (inr (refl, (what e, refl)))
                | inr (v, pumped) ↦ rw pumped (inl (refl, refl))
              ]))
      ]
