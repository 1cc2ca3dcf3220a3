-- ===== src/Lib.antt =====
-- The cocktail maker: a station that mixes drinks from pods of dispensers.
--
-- The program discovers pods on serial ports, keeps a catalogue of ingredients, recipes and glasses,
-- scales a recipe to a glass and shifts its strength, and pours each dispensed ingredient from the
-- dispenser that the station configuration assigns to it. This library models those parts as pure
-- functions on their state. A call that fails an assertion gives `none`, a call that throws or returns
-- an error gives `unexpected`.
--
-- The parts, with the files of the repository that they model:
--
--   * Ingredient: cocktail-maker/ingredient.cppm, ingredient.cpp. The store is an association list;
--     `init_ingredients`, `find_by_id` and the parsers keep their names.
--   * Recipe, Recipe/Parse: cocktail-maker/recipe.cppm, recipe.cpp. A step of a recipe is one command or
--     a parallel group; `assign_unique_command_ids` passes its counter on.
--   * Mixing: cocktail-maker/recipe_boost.cppm and recipe_scale.cppm, over a type of doubles
--     (Quantity, for core/units.cppm) that is a parameter. The statements on sums of volumes take
--     exact arithmetic as a hypothesis; Quantity/Integers shows that it can hold.
--   * Glass: cocktail-maker/glass.cppm, glass.cpp. The map of glasses is an association list, a volume
--     is its number of millilitres, and the order of volumes is a parameter. Glass/Window is the list of
--     glasses of gui/src/glass_context_bridge.cppm.
--   * StationConfig: cocktail-maker/station_config.cppm, station_config.cpp.
--   * Pods: Pod::create_dispenser of cocktail-maker/pod.cpp, pod_registry.cppm, pod_dispatcher.cppm. A
--     pod is a handle, and `lock` says what the handle leads to.
--   * Pods/Protocol, Pods/Monitor, Pods/Discovered: the rest of pod.cpp, pod_discovery.cpp, pod_registry.cpp
--     and pod_algorithms.cppm. What a pod answers is a parameter; an exchange gives the connection
--     afterwards and the result.
--   * Tasks: core/async_algorithms.cpp, with the completions of tasks and stop requests as steps in any
--     order.
--   * Execution: cocktail-maker/execute_recipe.cpp as a relation between a recipe and the status changes it
--     makes; Execution/Shown is MachineAdapter::update_command_status of gui/src/maschine_adapter.cppm.
--   * Machine: the commands of gui/src/maschine_adapter.cpp. Recipe/View: gui/src/recipe_adapter.cppm.
--     Recipe/Context: gui/src/recipe_context_bridge.cpp.
--   * Process: gui/src/process_context_bridge.cpp. ErrorPage holds the pages of the exceptions, Pipeline what
--     is mixed and posted, Runs which run is live, with the queue of the io thread and that of the event
--     loop in any interleaving.
--   * Station: gui/src/station_state_bridge.cpp. Rows is the model of the pods that views show, Queue the
--     closures that are handed to the event loop, Screen the pages and the operator's PIN, Lockout the
--     countdown.
--   * Calibration: gui/src/dispenser_calibration_bridge.cpp. Application: the init of
--     cocktail-maker/application.cpp. Errors: the exceptions.
--   * Session: cocktail-maker/pod_protocol_session.cppm and .cpp, as far as registrations, the dispatch
--     of responses and the bytes of the read buffer go. `frame.read` is a parameter.
--   * Serial: cocktail-maker/serial.cppm and the discovery in serial.cpp. Ports holds the reservation
--     tables, where a claim is the table with the entry, and dropping it erases the entry; Discovery
--     holds the reaction to ports and events, as a fold over the events; Ansi, Lines and FirmwareLine
--     treat the log of a pod as lists of bytes.
--   * Retry: core/retry.cppm.
--   * OperatorAuth: gui/src/operator_auth.cppm.
--
-- Json states what is used of simdjson, as a parameter: lookups in a parsed document, and for the files
-- that the program writes itself, that what is built is read back. Json/Tree is an instance of it.
-- Examples holds tests and the theorems at concrete inputs.
--
-- How the parts interact: the parser of recipes asks the ingredient store, boosting asks it for the
-- category of an ingredient, the station configuration drops ingredients that it does not know, and the
-- dispatcher of Pods asks the station configuration and then the registry. The monitor of a pod
-- calls the state of its pod in Station; a chosen recipe is scaled, boosted, executed command by command on
-- Machine, and shown by Execution/Shown; the safe state of all pods and parallel groups are groups of Tasks;
-- an exception of any part ends in a page of Process.
--
-- Bounds: loops are structural recursion. The loop that strips escape sequences runs on the length of
-- the line as fuel, and each of its rounds reads a byte; the loop of the retries runs on the number of
-- retries that are left; the loop on received bytes runs on one more than their number, and each of its
-- rounds but the last consumes a byte. Integers of the program are unbounded here, but the number of a dispenser in
-- a file is cut to 32 bits as the program does. Subtraction on ℕ stops at 0 where the program takes the
-- maximum with 0.
--
-- The rounds of the pings and of the countdown are fuel as well: the pings may be stopped after any number
-- of rounds, and for the countdown the rounds that are enough are stated.
--
-- Not modelled: the runtime of coroutines, sockets and udev, logging, the hardware simulator, of the protocol
-- session the queue of writes, the limit of the read buffer and the shutdown, the threads of the
-- application, and of the user interface the popup of a manual command and the
-- highlighting of a dispenser. Opening a port, reading and writing files, formatting numbers and hashing a
-- PIN are parameters. Of std::sort, std::unique, std::ranges::remove_if and the searches, the documented
-- result is written out on lists.
pub mod Prelude
pub mod Quantity
pub mod Json
pub mod Ingredient
pub mod Recipe
pub mod Mixing
pub mod Serial
pub mod Examples
pub mod OperatorAuth
pub mod Retry
pub mod Station
pub mod Errors
pub mod Execution
pub mod Process
pub mod Machine
pub mod Tasks
pub mod Calibration
pub mod Application
pub mod StationConfig
pub mod Session
pub mod Pods
pub mod Glass
