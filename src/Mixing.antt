-- ===== src/Mixing.antt =====
-- What is mixed: scaling a recipe to a glass, and shifting its strength.
pub mod Scale
pub mod Boost
pub mod Commute
