-- ===== src/Process.antt =====
-- `gui/src/process_context_bridge.cpp`: processing the recipe that the user chose.
pub mod ErrorPage
pub mod Pipeline
pub mod Runs
