-- ===== src/Process/ErrorPage.antt =====
-- The pages that `gui/src/process_context_bridge.cpp` shows for an exception. How `std::format` prints the
-- number of a dispenser and what an exception says of itself are parameters.
pub mod Laws
use Prim.Native.String.{◌++◌}
use cocktail_maker.Prelude.{String, Option, none, some}
use cocktail_maker.Prelude.Expected.{value, unexpected}
use cocktail_maker.Prelude.Int.{ℤ}
use cocktail_maker.Ingredient.{Ingredient, IngredientStore, find_by_id}
use cocktail_maker.StationConfig.{Mapping, PodDispenser, find_ingredient_by_dispenser}
use cocktail_maker.Errors.{
  Exception, dispenser_empty_error, dispenser_not_found_error, ingredient_not_assigned_error,
  pod_receive_error, pod_timeout_error, timeout_error, protocol_error, recipe_not_found_error,
  abort_error, system_error, other_error, ErrorCode, code_dispenser_empty, code_dispenser_not_found,
  code_invalid_parameter, code_unsupported_in_current_state, code_hardware_fault, code_busy,
  code_not_calibrated, code_internal_error, code_values_limit,
}

pub data ErrorItemCategory : Type 0 where
  ingredient_category : ErrorItemCategory
  abort_category : ErrorItemCategory
  unknown_category : ErrorItemCategory

unfoldable pub to_slint_string : ErrorItemCategory → String
to_slint_string ingredient_category = "I"
to_slint_string abort_category = "A"
to_slint_string unknown_category = "U"

pub record ErrorPageData : Type 0 where
  pub technical_title : String
  pub technical_description : String
  pub item_category : ErrorItemCategory
  pub item_name : String
  pub item_details : String

pub record CustomerFacingText : Type 0 where
  pub title : String
  pub message : String

unfoldable pub customer_text_for : ErrorItemCategory → CustomerFacingText
customer_text_for ingredient_category = record {
  title = "Zutat nicht verfügbar";
  message = "Bitte wende dich kurz an das Personal.";
}
customer_text_for abort_category = record {
  title = "Abgebrochen";
  message = "Die Zubereitung wurde abgebrochen.";
}
customer_text_for unknown_category = record {
  title = "Kurze Unterbrechung";
  message = "Es gab ein technisches Problem. Bitte wende dich an das Personal.";
}

unfoldable pub make_pod_receive_error : String → ErrorCode → ErrorPageData
make_pod_receive_error pod_id code =
    let pod_label = "Pod '" ++ pod_id ++ "'" in
    elim code [
      | code_hardware_fault ↦ record {
        technical_title = "Hardwarefehler!";
        technical_description = "Der Pod meldet einen Hardwaredefekt.";
        item_category = unknown_category;
        item_name = "Hardware";
        item_details = pod_label ++ " - Bitte Pod prüfen und Support kontaktieren.";
      }
      | code_busy ↦ record {
        technical_title = "Pod beschäftigt!";
        technical_description = "Der Pod verarbeitet noch einen anderen Befehl.";
        item_category = unknown_category;
        item_name = "Pod";
        item_details = pod_label ++ " - Bitte kurz warten und erneut versuchen.";
      }
      | code_not_calibrated ↦ record {
        technical_title = "Nicht kalibriert!";
        technical_description = "Der angesprochene Dispenser wurde noch nicht kalibriert.";
        item_category = unknown_category;
        item_name = "Kalibrierung";
        item_details = pod_label ++ " - Bitte den Dispenser in den Einstellungen kalibrieren.";
      }
      | code_unsupported_in_current_state ↦ record {
        technical_title = "Aktion nicht möglich!";
        technical_description =
            "Der Pod befindet sich in einem Zustand, der diesen Befehl aktuell nicht zulässt.";
        item_category = unknown_category;
        item_name = "Pod";
        item_details = pod_label ++ " - Bitte Pod neustarten und erneut versuchen.";
      }
      | code_dispenser_not_found ↦ record {
        technical_title = "Dispenser unbekannt!";
        technical_description = "Der Pod kennt den angesprochenen Dispenser nicht.";
        item_category = unknown_category;
        item_name = "Dispenser";
        item_details = pod_label ++ " - Bitte Stationskonfiguration prüfen.";
      }
      | _ ↦ record {
        technical_title = "Unbekannter Pod-Fehler!";
        technical_description = "Der Pod hat einen unerwarteten Fehler gemeldet.";
        item_category = unknown_category;
        item_name = "Pod";
        item_details = pod_label ++ " - Bitte Support kontaktieren.";
      }
    ]

-- For every exception without a page of its own.
unfoldable pub make_fallback : String → ErrorPageData
make_fallback what = record {
  technical_title = "Unbekannter Fehler!";
  technical_description = "Es ist ein unerwarteter Fehler aufgetreten.";
  item_category = unknown_category;
  item_name = "Fehlerdetails";
  item_details = "Bitte Support kontaktieren. Details: " ++ what;
}

module _ (format_int : ℤ → String) (what : Exception → String) (station_config : Mapping)
    (store : IngredientStore) where
  -- The ingredient of the dispenser, if it is assigned and the store knows it.
  unfoldable pub ingredient_of : PodDispenser → Option Ingredient
  unfolding find_ingredient_by_dispenser find_by_id
  ingredient_of dispenser = elim (find_ingredient_by_dispenser station_config dispenser) [
    | unexpected e ↦ none
    | value id ↦ find_by_id store id
  ]

  unfoldable pub make_dispenser_empty : String → ℤ → ErrorPageData
  unfolding ingredient_of
  make_dispenser_empty pod_id k = record {
    technical_title = "Behälter leer!";
    technical_description = "Bitte auffüllen.";
    item_category = ingredient_category;
    item_name = elim (ingredient_of (record { pod_id = pod_id; dispenser_id = k })) [
      | none ↦ "Unbekannte Zutat"
      | some i ↦ i.display_name
    ];
    item_details = "Bitte Behälter '" ++ format_int k ++ "' von Pod '" ++ pod_id ++ "' befüllen";
  }

  unfoldable pub make_ingredient_not_assigned : String → ErrorPageData
  unfolding find_by_id
  make_ingredient_not_assigned id = record {
    technical_title = "Zutat nicht zugeordnet!";
    technical_description = "Für diese Zutat ist kein Dispenser konfiguriert.";
    item_category = ingredient_category;
    item_name = elim (find_by_id store id) [ none ↦ id | some i ↦ i.display_name ];
    item_details = "Bitte in der Administration einen Dispenser zuweisen.";
  }

  unfoldable pub make_dispenser_not_found : String → ℤ → ErrorPageData
  make_dispenser_not_found pod_id k = record {
    technical_title = "Dispenser nicht gefunden!";
    technical_description =
        "Der für diese Zutat konfigurierte Dispenser konnte am Pod nicht gefunden werden.";
    item_category = unknown_category;
    item_name = "Konfiguration";
    item_details =
        "Pod '"
        ++ pod_id
        ++ "', Dispenser '"
        ++ format_int k
        ++ "' - Bitte Stationskonfiguration und Verkabelung prüfen.";
  }

  -- The overloads of `error_page::make`.
  unfoldable pub make : Exception → ErrorPageData
  unfolding make_dispenser_empty make_dispenser_not_found make_ingredient_not_assigned make_fallback
      make_pod_receive_error
  make (dispenser_empty_error pod_id k) = make_dispenser_empty pod_id k
  make (dispenser_not_found_error pod_id k) = make_dispenser_not_found pod_id k
  make (ingredient_not_assigned_error id) = make_ingredient_not_assigned id
  make (pod_receive_error pod_id code) = make_pod_receive_error pod_id code
  make (pod_timeout_error pod_id) = record {
    technical_title = "Pod antwortet nicht!";
    technical_description = "Der Pod hat innerhalb der erwarteten Zeit nicht reagiert.";
    item_category = unknown_category;
    item_name = "Verbindung";
    item_details = "Pod '" ++ pod_id ++ "' - Bitte USB-Verbindung prüfen und den Pod neu starten.";
  }
  make (protocol_error text) = record {
    technical_title = "Kommunikationsfehler!";
    technical_description = "Die Nachricht an den Pod konnte nicht verarbeitet werden.";
    item_category = unknown_category;
    item_name = "Verbindung";
    item_details =
        "Bitte USB-Verbindung prüfen. Besteht das Problem weiterhin, Support kontaktieren.";
  }
  make (recipe_not_found_error id) = record {
    technical_title = "Rezept nicht gefunden!";
    technical_description = "Das ausgewählte Rezept konnte nicht geladen werden.";
    item_category = unknown_category;
    item_name = "Rezept";
    item_details = "Bitte ein anderes Rezept wählen oder die Rezeptdaten prüfen.";
  }
  make abort_error = record {
    technical_title = "Prozess abgebrochen!";
    technical_description = "Prozess wurde abgebrochen.";
    item_category = abort_category;
    item_name = "Nutzer";
    item_details = "Bitte neustarten.";
  }
  make timeout_error = make_fallback (what timeout_error)
  make (system_error text) = make_fallback (what (system_error text))
  make (other_error text) = make_fallback (what (other_error text))

  -- The page for an exception that `async_process_recipe` catches: the last `catch` takes every class
  -- that has none of its own there by its base class.
  unfoldable pub caught_page : Exception → ErrorPageData
  unfolding make make_fallback
  caught_page timeout_error = make_fallback (what timeout_error)
  caught_page (recipe_not_found_error id) = make_fallback (what (recipe_not_found_error id))
  caught_page abort_error = make_fallback (what abort_error)
  caught_page (other_error text) = make_fallback (what (other_error text))
  caught_page e = make e
