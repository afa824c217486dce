-- ===== src/Rpg/Places.antt =====
-- demo-rpg/include/location.h, world.h and demo-rpg/src/location.cpp, world.cpp.
use c_book.Prelude.{ℕ, List, [], Option, none, some, length}
use c_book.Prelude.Tables.{Table, find_key, assign}
use c_book.Rpg.Items.{Inventory}

pub record Location : Type 0 where
  pub id : List ℕ
  pub name : List ℕ
  pub description : List ℕ
  pub exits : Table (List ℕ)
  pub items : Inventory

unfoldable pub make_location : List ℕ → List ℕ → List ℕ → Location
make_location id name description = record {
  id = id;
  name = name;
  description = description;
  exits = [];
  items = [];
}

unfoldable pub add_exit : List ℕ → List ℕ → Location → Location
add_exit direction target_id l = record l { exits = assign direction target_id l.exits }

-- An empty string where there is no such exit.
unfoldable pub exit : List ℕ → Location → List ℕ
exit direction l = elim (find_key direction l.exits) [ none ↦ [] | some target ↦ target ]

abbrev pub World : Type 0
World = Table Location

-- `emplace` leaves a location that is there alone.
unfoldable pub add_location : Location → World → World
add_location l w = elim (find_key l.id w) [ none ↦ assign l.id l w | some old ↦ w ]

unfoldable pub find_location : List ℕ → World → Option Location
find_location id w = find_key id w

pub size : World → ℕ
size w = length w
