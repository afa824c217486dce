-- ===== src/Rpg/Game/Tests.antt =====
-- The game on a small world.
use c_book.Prelude.{
  ◌^◌, ◌-◌, ℕ, ◌+◌, ◌≡◌, ◌≢◌, refl, inl, inr, Bool, true, false, List, [], ◌∷◌, some, codes,
  bytes_eq, arith, Bool-cases, subst,
}
use c_book.Prelude.Int.{◌+ℤ◌, ltb_ℤ, pos}
use c_book.Rpg.Items.{Item, weapon, consumable, find}
use c_book.Rpg.Player.{
  not_negative, Player, take_damage, heal, set_hp, IsPlayer, Changed, operations-IsPlayer,
}
use c_book.Rpg.Places.{Location, find_location, exit}
use c_book.Rpg.Game.{Game, cmd_take, cmd_drop, cmd_use, step, prints}
use c_book.Rpg.Game.Conservation.{all_items, used_up, take-drop_conserve, cmd_use_lem}
use c_book.Rpg.Game.Travel.{IsClosed}

abbrev sword : Item
sword = weapon (codes "sword") (pos 5) (pos 8)

abbrev potion : Item
potion = consumable (codes "potion") (pos 1) (pos 15)

abbrev glade : Location
glade = record {
  id = codes "glade";
  name = [];
  description = [];
  exits = (codes "west", codes "glade") ∷ [];
  items = sword ∷ [];
}

abbrev hero : Player
hero = record { name = codes "hero"; max_hp = pos 20; hp = pos 7; inventory = potion ∷ [] }

hero-IsPlayer : IsPlayer hero
unfolding bytes_eq
hero-IsPlayer = record {
  named = refl;
  max_positive = omega arith;
  hp_low = omega arith;
  hp_high = omega arith;
}

abbrev start : Game
start = record {
  running = true;
  world = (codes "glade", glade) ∷ [];
  player = hero;
  current_location_id = codes "glade";
}

start_here : find_location start.current_location_id start.world ≡ some glade
unfolding find_location bytes_eq
start_here = refl

abbrev is_weapon : Item → Bool
is_weapon (weapon n w d) = true
is_weapon i = false

operations-IsPlayer_example :
    Changed hero (take_damage (pos 9) hero)
    × (Changed hero (heal (pos 7) hero) × Changed hero (set_hp (pos 100) hero))
unfolding not_negative ◌+ℤ◌
operations-IsPlayer_example =
    operations-IsPlayer (pos 9) (pos 7) (pos 100) hero hero-IsPlayer (omega arith)

take-drop_conserve_example :
    (all_items is_weapon (cmd_take (codes "sword") start) ≡ all_items is_weapon start)
    × (all_items is_weapon (cmd_drop (codes "sword") start) ≡ all_items is_weapon start)
take-drop_conserve_example = take-drop_conserve is_weapon (codes "sword") glade start start_here

cmd_use_lem_example :
    (all_items is_weapon (cmd_use (codes "potion") start)
        + used_up is_weapon (find (codes "potion") start.player.inventory)
      ≡ all_items is_weapon start)
    × IsPlayer (cmd_use (codes "potion") start).player
unfolding find not_negative ◌+ℤ◌
cmd_use_lem_example = cmd_use_lem is_weapon (codes "potion") start hero-IsPlayer (omega arith)

only_glade : (id : List ℕ) (l : Location) → find_location id start.world ≡ some l → l ≡ glade
unfolding find_location
only_glade id l h = ground arith

only_west : (direction : List ℕ) → exit direction glade ≢ [] → exit direction glade ≡ codes "glade"
unfolding exit bytes_eq
only_west direction h = elim (Bool-cases (bytes_eq (codes "west") direction)) [
  | inl west ↦ rw west refl
  | inr other ↦ absurd (h (rw other refl))
]

start-IsClosed : IsClosed start.world
start-IsClosed id direction l here leads =
    let e = only_glade id l here in
    let there = only_west direction (subst (λ m. exit direction m ≢ []) e leads) in
    (glade, rw (e, there) start_here)

step_test : (step prints (codes "  get sword") start).1.player.inventory ≡ potion ∷ sword ∷ []
unfolding step
step_test = refl

-- Healing past the range of `int`, where the sum wraps around.
overflow_test : ltb_ℤ (heal (pos (2 ^ 31 - 1)) hero).hp (pos 0) ≡ true
unfolding heal
overflow_test = refl
