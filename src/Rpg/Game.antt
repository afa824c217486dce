-- ===== src/Rpg/Game.antt =====
-- demo-rpg/include/game.h and demo-rpg/src/game.cpp, without what is printed and without the files
-- of worlds and saves: `load` is a parameter.
pub mod Conservation
pub mod Travel
pub mod Slots
mod Tests
use c_book.Prelude.{
  ℕ, ◌≡◌, refl, Bool, true, false, ◌||◌, List, [], ◌∷◌, ◌++◌, Option, none, some, codes, ◌==◌,
  if◌then◌else◌, not,
}
use c_book.Prelude.Tables.{Table, find_key, assign}
use c_book.Rpg.Items.{Item, weapon, armor, consumable, Inventory, add, take, find}
use c_book.Rpg.Player.{Player, heal}
use c_book.Rpg.Places.{Location, World, exit, find_location}
use c_book.Rpg.Commands.{Handler, CommandRegistry, add_handler, add_alias, dispatch}

pub record Game : Type 0 where
  pub running : Bool
  pub world : World
  pub player : Player
  pub current_location_id : List ℕ

-- The constructor, from the loaded world and the player that it makes.
unfoldable pub make_game : World → Player → Game
make_game world player = record {
  running = true;
  world = world;
  player = player;
  current_location_id = codes "glade";
}

unfoldable pub cmd_go : List ℕ → Game → Game
unfolding exit find_location
cmd_go direction g = elim (find_location g.current_location_id g.world) [
  | none ↦ g
  | some l ↦ elim (exit direction l) [
    | [] ↦ g
    | c ∷ target ↦ record g { current_location_id = c ∷ target }
  ]
]

-- A write through the pointers to the items of a location and of the player.
unfoldable pub with_items : List ℕ → Location → Inventory → Inventory → Game → Game
with_items id l there own g = record g {
  world = assign id (record l { items = there }) g.world;
  player = record g.player { inventory = own };
}

unfoldable pub cmd_take : List ℕ → Game → Game
unfolding find_location take add with_items
cmd_take item_name g = elim (find_location g.current_location_id g.world) [
  | none ↦ g
  | some l ↦
      let picked = take item_name l.items in
      elim picked.0 [
        | none ↦ g
        | some i ↦ with_items g.current_location_id l picked.1 (add (some i) g.player.inventory) g
      ]
]

unfoldable pub cmd_drop : List ℕ → Game → Game
unfolding find_location take add with_items
cmd_drop item_name g =
    let dropped = take item_name g.player.inventory in
    elim dropped.0 [
      | none ↦ g
      | some i ↦ elim (find_location g.current_location_id g.world) [
        | none ↦ record g { player = record g.player { inventory = dropped.1 } }
        | some l ↦ with_items g.current_location_id l (add (some i) l.items) dropped.1 g
      ]
    ]

-- A consumable heals, and one item of the name goes; another item does nothing.
unfoldable pub cmd_use : List ℕ → Game → Game
unfolding find heal take
cmd_use item_name g = elim (find item_name g.player.inventory) [
  | none ↦ g
  | some (weapon n w d) ↦ g
  | some (armor n w d) ↦ g
  | some (consumable n w h) ↦
      let drunk = heal h g.player in
      record g { player = record drunk { inventory = (take item_name drunk.inventory).1 } }
]

unfoldable pub cmd_quit : Game → Game
cmd_quit g = record g { running = false }

-- A command that wants an argument does nothing without one.
unfoldable pub with_argument : (List ℕ → Game → Game) → Handler Game
with_argument command [] g = g
with_argument command (c ∷ rest) g = command (c ∷ rest) g

-- What only prints, or writes a file.
abbrev pub prints : Handler Game
prints rest g = g

unfoldable pub register_commands : Handler Game → CommandRegistry Game
unfolding add_handler add_alias cmd_go cmd_take cmd_drop cmd_use cmd_quit with_argument
register_commands load = add_alias (codes "exit") (codes "quit") (
    add_alias (codes "q") (codes "quit") (
      add_alias (codes "get") (codes "take") (
        add_alias (codes "stat") (codes "status") (
          add_alias (codes "inv") (codes "inventory") (
            add_alias (codes "i") (codes "inventory")
              (add_alias (codes "l") (codes "look") (handlers load)))))))
  where
    handlers : Handler Game → CommandRegistry Game
    handlers load =
        add_handler (codes "quit") (λ rest. cmd_quit)
          (add_handler (codes "load") (with_argument load) (
            add_handler (codes "save") (with_argument prints) (
              add_handler (codes "use") (with_argument cmd_use) (
                add_handler (codes "drop") (with_argument cmd_drop) (
                  add_handler (codes "take") (with_argument cmd_take) (
                    add_handler (codes "go") (with_argument cmd_go) (
                      add_handler (codes "inventory") prints (
                        add_handler (codes "status") prints (
                          add_handler (codes "look") prints (
                            add_handler (codes "help") prints
                              (record { handlers = []; aliases = [] })))))))))))

-- `find_first_not_of(" \t")` and `substr`.
unfoldable pub trim_left : List ℕ → List ℕ
trim_left [] = []
trim_left (c ∷ s) = let rest = trim_left s in if c == 32 || c == 9 then rest else c ∷ s

-- White space in the classic locale.
abbrev pub is_space : ℕ → Bool
is_space c = c == 32 || (c == 9 || (c == 10 || (c == 11 || (c == 12 || c == 13))))

unfoldable pub skip_space : List ℕ → List ℕ
skip_space [] = []
skip_space (c ∷ s) = let rest = skip_space s in if is_space c then rest else c ∷ s

-- `ss >> verb` behind the white space: the word, and what is left for `getline`.
unfoldable pub read_word : List ℕ → List ℕ × List ℕ
read_word [] = ([], [])
read_word (c ∷ s) =
    let rest = read_word s in if is_space c then ([], c ∷ s) else (c ∷ rest.0, rest.1)

-- A line of input: what `step` returns, and the game after it.
unfoldable pub step : Handler Game → List ℕ → Game → Bool × Game
unfolding skip_space read_word trim_left dispatch register_commands
step load [] g = (true, g)
step load (c ∷ line) g =
    let words = read_word (skip_space (c ∷ line)) in
    let done = dispatch words.0 (trim_left words.1) (register_commands load) g in
    (done.1.running, done.1)

-- The loop over the lines of the input: it ends with them, or when `step` returns false.
unfoldable pub run : Handler Game → List (List ℕ) → Game → Game
unfolding step
run load [] g = g
run load (line ∷ lines) g =
    let s = step load line g in
    let rest = run load lines s.1 in if g.running then (if s.0 then rest else s.1) else g
