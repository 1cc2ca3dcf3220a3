-- ===== src/Calibration.antt =====
-- `gui/src/dispenser_calibration_bridge.cpp`: what the window is told of a calibration, in order. The
-- commands of a dispenser are parameters, as are the text of an exception and of a volume.
pub mod Laws
use cocktail_maker.Prelude.{ℕ, List, [], ◌∷◌, ◌++◌, Option, none, some, String, Bool, true, false}
use cocktail_maker.Prelude.Expected.{Expected, value, unexpected}
use cocktail_maker.Prelude.Int.{ℤ}
use cocktail_maker.Pods.{PodInfo, PodRegistry, Dispenser, pump, valve, dispenser_of_pod}
use cocktail_maker.Errors.{Exception}

pub data CalibrationStepStatus : Type 0 where
  step_running : CalibrationStepStatus
  step_success : CalibrationStepStatus
  step_error : CalibrationStepStatus

-- The three statuses of the window.
pub data CalibrationStep : Type 0 where
  load_cell_ref_weight : CalibrationStep
  load_cell_tare : CalibrationStep
  pump_step : CalibrationStep

pub data UiUpdate : Type 0 where
  status_update : CalibrationStep → CalibrationStepStatus → UiUpdate
  calibration_error : String → UiUpdate
  pump_measured : String → UiUpdate

abbrev pub no_dispenser : String
no_dispenser = "Es konnte kein Dispenser gefunden werden."

-- The two updates of a step that fails.
unfoldable pub step_fails : CalibrationStep → String → List UiUpdate
step_fails step text = status_update step step_error ∷ calibration_error text ∷ []

module _ {Q : Type 0} (what : Exception → String) (show_volume : Q → String)
    (lock : ℕ → Option PodInfo) (pods : PodRegistry) (pod_id : String) (dispenser_id : ℤ) where
  unfoldable pub async_dispatch_load_tare : (Dispenser → Option Exception) → List UiUpdate
  unfolding step_fails dispenser_of_pod
  async_dispatch_load_tare tare =
      status_update load_cell_tare step_running
      ∷ elim (dispenser_of_pod lock pods pod_id dispenser_id) [
        | unexpected e ↦ step_fails load_cell_tare no_dispenser
        | value d ↦ elim (tare d) [
          | none ↦ status_update load_cell_tare step_success ∷ []
          | some e ↦ step_fails load_cell_tare (what e)
        ]
      ]

  unfoldable pub async_dispatch_calibrate_load_cell_ref_weight :
      (Dispenser → Q → Option Exception) → Q → List UiUpdate
  unfolding step_fails dispenser_of_pod
  async_dispatch_calibrate_load_cell_ref_weight calibrate grams =
      status_update load_cell_ref_weight step_running
      ∷ elim (dispenser_of_pod lock pods pod_id dispenser_id) [
        | unexpected e ↦ step_fails load_cell_ref_weight no_dispenser
        | value d ↦ elim (calibrate d grams) [
          | none ↦ status_update load_cell_ref_weight step_success ∷ []
          | some e ↦ step_fails load_cell_ref_weight (what e)
        ]
      ]

  -- The updates, and whether the assertion that the dispenser is a pump held.
  unfoldable pub async_calibrate_pump : (ℤ → ℕ → Expected Exception Q) → ℕ → List UiUpdate × Bool
  unfolding step_fails dispenser_of_pod
  async_calibrate_pump calibrate steps = elim (dispenser_of_pod lock pods pod_id dispenser_id) [
    | unexpected e ↦
        (status_update pump_step step_running ∷ step_fails pump_step no_dispenser, true)
    | value (valve k) ↦ (status_update pump_step step_running ∷ [], false)
    | value (pump k) ↦ (
      status_update pump_step step_running ∷ elim (calibrate k steps) [
        | value pumped ↦
            pump_measured (show_volume pumped) ∷ status_update pump_step step_success ∷ []
        | unexpected e ↦ step_fails pump_step (what e)
      ],
      true,
    )
  ]
