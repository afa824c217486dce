-- ===== src/Rpg.antt =====
-- demo-rpg: the text game, by class.
pub mod Items
pub mod Player
pub mod Places
pub mod Commands
pub mod Game
pub mod Events
pub mod Streams
pub mod Saves
pub mod Worlds
