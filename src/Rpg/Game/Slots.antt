-- ===== src/Rpg/Game/Slots.antt =====
-- `cmd_save` and `cmd_load` of demo-rpg/src/game.cpp, over the files that they write and read: a
-- table from the path to the text.
use c_book.Prelude.{
  ℕ, ◌≡◌, refl, ap, ◌∙◌, Bool, true, List, [], ◌++◌, codes, bytes_eq, Outcome, throw, ok,
}
use c_book.Prelude.Tables.{Table, find_key, assign, find_key-assign, find_key-assign-other}
use c_book.Rpg.Game.{Game}
use c_book.Rpg.Places.{World}
use c_book.Rpg.Saves.Writing.{SaveError, invalid_number, Saved, write}
use c_book.Rpg.Saves.Reading.{read, clear_world}
use c_book.Rpg.Saves.RoundTrip.{IsGame, read-write}
use c_book.Rpg.Worlds.{WorldError, load_world}

abbrev pub Files : Type 0
Files = Table (List ℕ)

abbrev pub slot_path : List ℕ → List ℕ
slot_path slot = codes "data/saves/" ++ (slot ++ codes ".sav")

abbrev pub world_path : List ℕ
world_path = codes "data/world.txt"

abbrev pub saved_of : Game → Saved
saved_of g = record {
  player = g.player;
  world = g.world;
  current_location_id = g.current_location_id;
}

store_text : List ℕ → Outcome SaveError (List ℕ) → Files → Files
store_text path (throw e) files = files
store_text path (ok text) files = assign path text files

-- `opens` is whether the file can be opened for writing.
unfoldable pub cmd_save : Bool → List ℕ → Game → Files → Files
unfolding write store_text
cmd_save opens slot g files = store_text (slot_path slot) (write opens (saved_of g)) files

-- An exception that `catch (const GameError&)` does not take leaves the game.
caught : SaveError → Game → Outcome SaveError Game
caught invalid_number g = throw invalid_number
caught e g = ok g

take_save : Outcome SaveError Saved → Game → Outcome SaveError Game
unfolding caught
take_save (throw e) g = caught e g
take_save (ok s) g =
    ok
      (record g { world = s.world; player = s.player; current_location_id = s.current_location_id })

load_over : Outcome WorldError World → List ℕ → Files → Game → Outcome SaveError Game
unfolding read take_save
load_over (throw e) slot files g = ok g
load_over (ok world) slot files g =
    take_save
      (read (find_key (slot_path slot) files)
        (record { player = g.player; world = world; current_location_id = g.current_location_id }))
      g

unfoldable pub cmd_load : List ℕ → Files → Game → Outcome SaveError Game
unfolding load_world load_over
cmd_load slot files g = load_over (load_world (find_key world_path files)) slot files g

-- The text of a save that could be written.
abbrev written : Outcome SaveError (List ℕ) → List ℕ
written (throw e) = []
written (ok text) = text

-- A game that is saved to a slot, by a write that succeeds, comes back from it in whatever state the
-- game is then: the player, the items of every location and the current location are those of the save.
-- The file of the world has to have the locations of the game, and the saved game to be one of these:
-- its player is in order; the names of the player and of the items are not empty, and have no
-- underscore and no white space but spaces; the identifiers of the locations are not empty and have no
-- white space, and each location is filed once, under its own; the numbers have 32 bits; the current
-- location is one of the world.
pub cmd_load-cmd_save :
    (slot : List ℕ) (g later : Game) (files : Files) (world : World)
    → IsGame (saved_of g)
    → load_world (find_key world_path files) ≡ ok world
    → clear_world g.world ≡ clear_world world
    → cmd_load slot (cmd_save true slot g files) later ≡ ok (record g { running = later.running })
unfolding cmd_load cmd_save load_over take_save store_text write bytes_eq
cmd_load-cmd_save slot g later files world good loaded same =
    let path = slot_path slot in
    let text = written (write true (saved_of g)) in
    let base : Saved = record {
      player = later.player;
      world = world;
      current_location_id = later.current_location_id;
    } in
    ap (λ o. load_over (load_world o) slot (assign path text files) later)
      (find_key-assign-other path text world_path files refl)
    ∙ ap (λ w. load_over w slot (assign path text files) later) loaded
    ∙ ap (λ o. take_save (read o base) later) (find_key-assign path text files)
    ∙ ap (λ o. take_save o later) (read-write (saved_of g) base good same)
