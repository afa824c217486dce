-- ===== src/Rpg/Worlds/Tests.antt =====
-- A small world, read.
use c_book.Prelude.{ℕ, ◌≡◌, refl, List, [], ◌∷◌, ◌++◌, codes, throw, ok}
use c_book.Prelude.Int.{pos, negsuc}
use c_book.Rpg.Items.{weapon}
use c_book.Rpg.Places.{World}
use c_book.Rpg.Worlds.Filed.{IsAtlas, parse_world-IsAtlas}
use c_book.Rpg.Worlds.{before_location, parse_world}

abbrev small_text : List ℕ
small_text =
    codes "# a world"
    ++ 10 ∷ codes "location hall"
    ++ 10 ∷ codes "  name  The hall "
    ++ 10 ∷ codes "exit north yard"
    ++ 10 ∷ codes "item weapon long_sword 5 -10"
    ++ 10 ∷ codes "location yard"
    ++ 10 ∷ codes "desc A yard."
    ++ 10 ∷ []

abbrev small_world : World
small_world =
    (
      codes "hall",
      record {
        id = codes "hall";
        name = codes "The hall";
        description = [];
        exits = (codes "north", codes "yard") ∷ [];
        items = weapon (codes "long sword") (pos 5) (negsuc 9) ∷ [];
      },
    )
    ∷ (
      codes "yard",
      record {
        id = codes "yard";
        name = [];
        description = codes "A yard.";
        exits = [];
        items = [];
      },
    )
    ∷ []

small_world-read : parse_world small_text ≡ ok small_world
unfolding parse_world
small_world-read = refl

early : parse_world (codes "name x") ≡ throw (before_location 1 (codes "name"))
unfolding parse_world
early = refl

parse_world-IsAtlas_example : IsAtlas small_world
parse_world-IsAtlas_example = parse_world-IsAtlas small_text small_world small_world-read
