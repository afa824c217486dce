-- ===== src/Rpg/Saves/Tests.antt =====
-- A save written and read back.
use c_book.Prelude.{
  ℕ, ◌≡◌, refl, true, false, ◌==◌, inl, inr, arith, ◌++◌, List, [], ◌∷◌, some, codes, throw, ok,
  ◌>>=◌, bytes_eq,
}
use c_book.Prelude.Int.{pos, negsuc}
use c_book.Rpg.Items.{Item, weapon, armor, consumable}
use c_book.Rpg.Player.{Player}
use c_book.Rpg.Places.{Location}
use c_book.Rpg.Saves.Writing.{
  invalid_number, Saved, checksum_mismatch, no_checksum, write, save_line, to_hex, checksum,
}
use c_book.Prelude.Tables.{find_key, assign}
use c_book.Rpg.Game.{Game}
use c_book.Rpg.Game.Slots.{Files, slot_path, world_path, cmd_save, cmd_load, cmd_load-cmd_save}
use c_book.Rpg.Worlds.{load_world}
use c_book.Rpg.Streams.{is_white}
use c_book.Rpg.Saves.Reading.{read, clear_world}
use c_book.Rpg.Saves.Items.{IsPlain, IsName}
use c_book.Rpg.Saves.RoundTrip.{IsGame}
use c_book.Rpg.Saves.Damage.{read-damaged}

abbrev hero : Player
hero = record {
  name = codes "Sir Serik";
  max_hp = pos 100;
  hp = pos 42;
  inventory = weapon (codes "long sword") (pos 5) (pos 10) ∷ [];
}

abbrev place : List ℕ → List Item → Location
place id items = record { id = id; name = id; description = []; exits = []; items = items }

abbrev before : Saved
before = record {
  player = hero;
  world =
      (codes "hall", place (codes "hall") (consumable (codes "elixir") (pos 1) (negsuc 6) ∷ []))
      ∷ (codes "yard", place (codes "yard") [])
      ∷ [];
  current_location_id = codes "hall";
}

abbrev other : Saved
other = record {
  player = record hero { name = codes "x"; hp = pos 1; inventory = [] };
  world =
      (codes "hall", place (codes "hall") [])
      ∷ (codes "yard", place (codes "yard") (armor (codes "mail") (pos 9) (pos 3) ∷ []))
      ∷ [];
  current_location_id = codes "yard";
}

again : (write true before >>= λ text. read (some text) other) ≡ ok before
unfolding write read
again = refl

cut : read (some (codes "SAVE 1")) other ≡ throw no_checksum
unfolding read
cut = refl

plain : (c : ℕ) → (is_white c ≡ false) → (c == 95) ≡ false → IsPlain c
plain c ink mark = (inr ink, mark)

blank : IsPlain 32
blank = (inl refl, refl)

sword-IsName : IsName (codes "long sword")
sword-IsName = (
  plain 108 refl refl,
  (
    plain 111 refl refl,
    (
      plain 110 refl refl,
      (
        plain 103 refl refl,
        (
          blank,
          (
            plain 115 refl refl,
            (
              plain 119 refl refl,
              (plain 111 refl refl, (plain 114 refl refl, (plain 100 refl refl, tt))),
            ),
          ),
        ),
      ),
    ),
  ),
)

elixir-IsName : IsName (codes "elixir")
elixir-IsName = (
  plain 101 refl refl,
  (
    plain 108 refl refl,
    (plain 105 refl refl, (plain 120 refl refl, (plain 105 refl refl, (plain 114 refl refl, tt)))),
  ),
)

hero-IsName : IsName (codes "Sir Serik")
hero-IsName = (
  plain 83 refl refl,
  (
    plain 105 refl refl,
    (
      plain 114 refl refl,
      (
        blank,
        (
          plain 83 refl refl,
          (
            plain 101 refl refl,
            (plain 114 refl refl, (plain 105 refl refl, (plain 107 refl refl, tt))),
          ),
        ),
      ),
    ),
  ),
)

before-IsGame : IsGame before
unfolding bytes_eq
before-IsGame = record {
  player = record {
    named = refl;
    max_positive = omega arith;
    hp_low = omega arith;
    hp_high = omega arith;
  };
  name = hero-IsName;
  hp = omega arith;
  max_hp = omega arith;
  items = ((sword-IsName, omega arith, omega arith), tt);
  places = (
    (refl, (refl, (refl, (refl, (refl, tt)))), ((elixir-IsName, omega arith, omega arith), tt)),
    ((refl, (refl, (refl, (refl, (refl, tt)))), tt), tt),
  );
  distinct = (refl, (refl, tt));
  word = (refl, (refl, (refl, (refl, tt))));
  start = (place (codes "hall") (consumable (codes "elixir") (pos 1) (negsuc 6) ∷ []), refl);
}

read-damaged_example :
    read
      (some (
        (codes "hp 42 " ++ 57 ∷ (codes "00" ++ 10 ∷ []))
        ++ save_line
            (codes "CHK " ++ to_hex (checksum (codes "hp 42 " ++ 49 ∷ (codes "00" ++ 10 ∷ []))))))
      other
    ≡ throw checksum_mismatch
read-damaged_example =
    read-damaged (codes "hp 42 ") (codes "00") 49 57 other (omega arith) (omega arith) (omega arith)

abbrev playing : Game
playing = record {
  running = true;
  world = before.world;
  player = before.player;
  current_location_id = before.current_location_id;
}

abbrev later : Game
later = record {
  running = true;
  world = other.world;
  player = other.player;
  current_location_id = other.current_location_id;
}

abbrev world_text : List ℕ
world_text =
    codes "location hall"
    ++ 10 ∷ codes "name hall"
    ++ 10 ∷ codes "location yard"
    ++ 10 ∷ codes "name yard"
    ++ 10 ∷ []

abbrev disk : Files
disk = (world_path, world_text) ∷ []

world_text-read : load_world (find_key world_path disk) ≡ ok (clear_world before.world)
unfolding load_world bytes_eq clear_world
world_text-read = refl

cmd_load-cmd_save_example :
    cmd_load (codes "one") (cmd_save true (codes "one") playing disk) later ≡ ok playing
unfolding clear_world
cmd_load-cmd_save_example =
    cmd_load-cmd_save (codes "one") playing later disk (clear_world before.world) before-IsGame
      world_text-read refl

-- A sum without a digit leaves the game with an exception that `load` does not take.
no_digits :
    cmd_load
      (codes "one")
      (assign
        (slot_path (codes "one"))
        (codes "SAVE 1" ++ 10 ∷ codes "CHK zzzzzzzz" ++ 10 ∷ [])
        disk)
      later
    ≡ throw invalid_number
unfolding cmd_load load_world bytes_eq
no_digits = refl
