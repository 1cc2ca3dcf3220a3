-- ===== src/Process/Pipeline.antt =====
-- `ProcessContextBridge::async_process_recipe` with `update_ui_recipe`, `display_ui_success` and
-- `display_ui_error`: what is posted to the window while a recipe is processed, in order. The execution
-- of the commands and the steady clock are parameters; times are nanoseconds.
pub mod Laws
use cocktail_maker.Prelude.{ℕ, ◌-◌, ◌*◌, ◌/◌, List, [], ◌∷◌, Option, none, some, String, and_then}
use cocktail_maker.Prelude.Int.{ℤ}
use cocktail_maker.Quantity.{Double}
use cocktail_maker.Ingredient.{IngredientStore}
use cocktail_maker.StationConfig.{Mapping}
use cocktail_maker.Recipe.{Commands, Recipe}
use cocktail_maker.Recipe.View.{UiCommand, transform_commands}
use cocktail_maker.Mixing.Scale.{scale_recipe}
use cocktail_maker.Mixing.Boost.{boost_recipe}
use cocktail_maker.Errors.{Exception}
use cocktail_maker.Process.ErrorPage.{
  ErrorPageData, CustomerFacingText, customer_text_for, to_slint_string, caught_page, make,
}

-- A closure of the event loop: the commands of the active recipe are set; the elapsed milliseconds are
-- set and the success page is shown; the texts are set and the error page is shown.
pub data Post : Type 0 where
  show_commands : List UiCommand → Post
  show_success : ℕ → Post
  show_error : CustomerFacingText → ErrorPageData → String → Post

-- The closure of `display_ui_error` for a page.
unfoldable pub error_post : ErrorPageData → Post
unfolding customer_text_for to_slint_string
error_post page =
    show_error (customer_text_for page.item_category) page (to_slint_string page.item_category)

-- `duration_cast<seconds>`, which is passed on as milliseconds.
unfoldable pub success_post : ℕ → ℕ → Post
success_post start stop = show_success ((stop - start) / 1000000000 * 1000)

module _ {Q : Type 0} ⦃d : Double Q⦄ (store : IngredientStore) where
  -- The two assignments to `recipe.commands`; `none` is a failed assertion.
  unfoldable pub prepared : Recipe Q → Q → Q → Option (Commands Q)
  unfolding scale_recipe boost_recipe
  prepared recipe boost target_volume =
      and_then (scale_recipe recipe.commands recipe.nominal_serving_volume target_volume)
        (λ scaled. boost_recipe scaled boost store)

  module _ (show_volume : Q → String) (format_int : ℤ → String) (what : Exception → String)
      (station_config : Mapping) (execute : Commands Q → Option Exception) (start stop : ℕ) where
    -- The `try` block and its handlers.
    unfoldable pub result_post : Commands Q → Post
    unfolding error_post success_post caught_page
    result_post commands = elim (execute commands) [
      | none ↦ success_post start stop
      | some e ↦ error_post (caught_page format_int what station_config store e)
    ]

    unfoldable pub async_process_recipe : Recipe Q → Q → Q → Option (List Post)
    unfolding prepared result_post transform_commands
    async_process_recipe recipe boost target_volume =
        and_then (prepared recipe boost target_volume) (λ commands. some (
          show_commands (transform_commands show_volume store commands)
          ∷ result_post commands
          ∷ []))
