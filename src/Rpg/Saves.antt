-- ===== src/Rpg/Saves.antt =====
-- demo-rpg/src/save_manager.cpp: the saves of the game.
pub mod Writing
pub mod Reading
pub mod Words
pub mod Items
pub mod Lines
pub mod Filling
pub mod Sums
pub mod RoundTrip
pub mod Damage
mod Tests
