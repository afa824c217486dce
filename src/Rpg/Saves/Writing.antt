-- ===== src/Rpg/Saves/Writing.antt =====
-- `write` of demo-rpg/src/save_manager.cpp: a save is a text with a line for each field and each item, and a last
-- line with a sum over the text. The tables stand for `std::unordered_map`s, in the order in which
-- those are gone through.
use c_book.Prelude.{
  ℕ, zero, suc, ◌+◌, ◌*◌, ◌/◌, ◌%◌, ◌^◌, Bool, List, [], ◌∷◌, ◌++◌, map, codes, ltb, ◌==◌,
  if◌then◌else◌, Outcome, throw, ok,
}
use c_book.Prelude.Int.{ℤ, pos}
use c_book.Rpg.Items.{Item, weapon, armor, consumable, Inventory}
use c_book.Rpg.Player.{Player, ValidationError}
use c_book.Rpg.Places.{World}
use c_book.Rpg.Streams.{print_int}

-- `invalid_number` is the `std::invalid_argument` of `std::stoul`.
pub data SaveError : Type 0 where
  not_opened no_checksum bad_checksum_line invalid_number checksum_mismatch empty_save : SaveError
  not_a_save bad_item unknown_location : SaveError
  incompatible_version : ℤ → SaveError
  unknown_item_type unknown_key unknown_start : List ℕ → SaveError
  invalid_player : ValidationError → SaveError

-- What a save is about: the three arguments of `write` and `read`.
pub record Saved : Type 0 where
  pub player : Player
  pub world : World
  pub current_location_id : List ℕ

abbrev pub current_version : ℤ
current_version = pos 1

unfoldable pub checksum_from : ℕ → List ℕ → ℕ
checksum_from sum [] = sum
checksum_from sum (c ∷ cs) = checksum_from ((sum * 31 + c) % 2 ^ 32) cs

abbrev pub checksum : List ℕ → ℕ
checksum text = checksum_from 0 text

abbrev pub hex_digit : ℕ → ℕ
hex_digit d = if ltb d 10 then 48 + d else 87 + d

-- The last `n` digits in base 16.
unfoldable pub hex_digits : ℕ → ℕ → List ℕ
hex_digits zero v = []
hex_digits (suc n) v = hex_digits n (v / 16) ++ hex_digit (v % 16) ∷ []

abbrev pub to_hex : ℕ → List ℕ
to_hex v = hex_digits 8 v

unfoldable pub escape : List ℕ → List ℕ
escape s = map (λ c. if c == 32 then 95 else c) s

unfoldable pub unescape : List ℕ → List ℕ
unescape s = map (λ c. if c == 95 then 32 else c) s

unfoldable pub fields : List ℕ → List ℕ → ℤ → ℤ → List ℕ
unfolding escape print_int
fields type name weight extra =
    type ++ (32 ∷ escape name ++ (32 ∷ print_int weight ++ (32 ∷ print_int extra)))

unfoldable pub item_line : Item → List ℕ
unfolding fields
item_line (weapon n w d) = fields (codes "weapon") n w d
item_line (armor n w d) = fields (codes "armor") n w d
item_line (consumable n w h) = fields (codes "consumable") n w h

-- The lines of `write`, each with its end.
abbrev pub save_line : List ℕ → List ℕ
save_line l = l ++ 10 ∷ []

unfoldable pub inventory_lines : Inventory → List ℕ
unfolding item_line
inventory_lines [] = []
inventory_lines (i ∷ items) = save_line (codes "inv " ++ item_line i) ++ inventory_lines items

unfoldable pub location_lines : List ℕ → Inventory → List ℕ
unfolding item_line
location_lines id [] = []
location_lines id (i ∷ items) =
    save_line (codes "wloc " ++ (id ++ (32 ∷ item_line i))) ++ location_lines id items

unfoldable pub world_lines : World → List ℕ
unfolding location_lines
world_lines [] = []
world_lines ((key, l) ∷ w) = location_lines l.id l.items ++ world_lines w

-- The lines after the first.
unfoldable pub game_lines : Saved → List ℕ
unfolding escape print_int inventory_lines world_lines
game_lines s =
    save_line (codes "name " ++ escape s.player.name)
    ++ (save_line (codes "hp " ++ (print_int s.player.hp ++ (32 ∷ print_int s.player.max_hp)))
        ++ (save_line (codes "loc " ++ s.current_location_id)
            ++ (inventory_lines s.player.inventory ++ world_lines s.world)))

unfoldable pub save_body : Saved → List ℕ
unfolding print_int game_lines
save_body s = save_line (codes "SAVE " ++ print_int current_version) ++ game_lines s

-- The text that `write` puts into the file, where this can be opened.
unfoldable pub write : Bool → Saved → Outcome SaveError (List ℕ)
unfolding save_body checksum_from hex_digits
write opens s =
    let content = save_body s in
    if opens
    then ok (content ++ save_line (codes "CHK " ++ to_hex (checksum content)))
    else throw not_opened
