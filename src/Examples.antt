-- ===== src/Examples.antt =====
-- Tests, and the theorems at concrete inputs.
mod Recipes
mod Boosting
mod Ports
mod Window
mod Running
mod Processing
mod Start
mod Station
mod Glasses
mod Pods
mod Sessions
