-- ===== src/Rpg/Saves/Reading.antt =====
-- `read` of demo-rpg/src/save_manager.cpp: the sum is compared, the lines are collected, and only then
-- the player and the world are changed.
use c_book.Prelude.{
  ℕ, ◌+◌, ◌-◌, ◌*◌, ◌%◌, ◌^◌, Bool, true, false, not, ◌&&◌, ◌||◌, List, [], ◌∷◌, ◌++◌, Option, none,
  some, codes, bytes_eq, length, get_or, drop, leb, ◌==◌, if◌then◌else◌, Outcome, throw, ok, ◌>>=◌,
}
use c_book.Prelude.Int.{ℤ, pos, ltb_ℤ}
use c_book.Prelude.Tables.{Table, find_key, assign}
use c_book.Rpg.Items.{Item, weapon, armor, consumable, Inventory, add}
use c_book.Rpg.Player.{make_player, set_hp}
use c_book.Rpg.Places.{World, find_location}
use c_book.Rpg.Streams.{Stream, stream, span_of, next_word, next_int, lines, is_decimal}
use c_book.Rpg.Saves.Writing.{
  SaveError, not_opened, no_checksum, bad_checksum_line, invalid_number, checksum_mismatch,
  empty_save, not_a_save, bad_item, unknown_location, incompatible_version, unknown_item_type,
  unknown_key, unknown_start, invalid_player, Saved, current_version, checksum, checksum_from,
  unescape,
}

unfoldable pub make_item : List ℕ → List ℕ → ℤ → ℤ → Outcome SaveError Item
unfolding bytes_eq
make_item type name weight extra =
    if bytes_eq type (codes "weapon")
    then ok (weapon name weight extra)
    else if bytes_eq type (codes "armor")
    then ok (armor name weight extra)
    else if bytes_eq type (codes "consumable")
    then ok (consumable name weight extra)
    else throw (unknown_item_type type)

unfoldable pub parse_item : Stream → Outcome SaveError Item
unfolding next_word next_int unescape make_item
parse_item s =
    let (type, s1) = next_word [] s in
    let (name, s2) = next_word [] s1 in
    let (weight, s3) = next_int (pos 0) s2 in
    let (extra, s4) = next_int (pos 0) s3 in
    if s4.failed then throw bad_item else make_item type (unescape name) weight extra

unfoldable pub starts_with : List ℕ → List ℕ → Bool
starts_with [] text = true
starts_with (p ∷ ps) [] = false
starts_with (p ∷ ps) (c ∷ cs) = p == c && starts_with ps cs

-- The text up to the line end before the last line that begins with `CHK `, and the text from there.
unfoldable pub split_checksum : List ℕ → Option (List ℕ × List ℕ)
unfolding starts_with
split_checksum [] = none
split_checksum (c ∷ cs) = elim (split_checksum cs) [
  | some (body, rest) ↦ some (c ∷ body, rest)
  | none ↦ if starts_with (10 ∷ codes "CHK ") (c ∷ cs) then some (c ∷ [], cs) else none
]

abbrev pub is_hex : ℕ → Bool
is_hex c = is_decimal c || ((leb 97 c && leb c 102) || (leb 65 c && leb c 70))

abbrev pub hex_value_of : ℕ → ℕ
hex_value_of c = if leb 97 c then c - 87 else if leb 65 c then c - 55 else c - 48

unfoldable pub hex_value : ℕ → List ℕ → ℕ
hex_value acc [] = acc
hex_value acc (c ∷ cs) = hex_value (acc * 16 + hex_value_of c) cs

-- `0x` before a digit is passed over.
unfoldable pub drop_prefix : List ℕ → List ℕ
drop_prefix text =
    let x = get_or text 1 0 in
    if get_or text 0 0 == 48 && ((x == 120 || x == 88) && is_hex (get_or text 2 0))
    then drop 2 text
    else text

-- The digits of `std::stoul(text, nullptr, 16)`, and the sign before them; text after them is ignored.
-- Eight bytes are no number beyond `unsigned long`.
unfoldable pub stoul_digits : Bool → List ℕ → Outcome SaveError ℕ
unfolding drop_prefix span_of hex_value
stoul_digits negative text =
    let (hexes, rest) = span_of is_hex (drop_prefix text) in
    let n = hex_value 0 hexes in
    elim hexes [
      | [] ↦ throw invalid_number
      | c ∷ cs ↦ ok (if negative then (2 ^ 64 - n) % 2 ^ 64 else n)
    ]

unfoldable pub stoul_16 : List ℕ → Outcome SaveError ℕ
unfolding stoul_digits
stoul_16 text =
    let sign = get_or text 0 0 in
    if sign == 45
    then stoul_digits true (drop 1 text)
    else stoul_digits false (if sign == 43 then drop 1 text else text)

-- What `read` collects before it changes anything.
pub record Draft : Type 0 where
  pub name : List ℕ
  pub hp : ℤ
  pub max_hp : ℤ
  pub location : List ℕ
  pub items : Inventory
  pub location_items : Table Inventory

-- `location_items[lid].push_back(item)`.
unfoldable pub push_item : List ℕ → Item → Table Inventory → Table Inventory
push_item lid i t =
    assign lid ((elim (find_key lid t) [ none ↦ [] | some items ↦ items ]) ++ i ∷ []) t

unfoldable pub parse_line : List ℕ → Draft → Outcome SaveError Draft
unfolding bytes_eq next_word next_int unescape parse_item push_item
parse_line text d =
    let (key, s) = next_word [] (stream text) in
    if bytes_eq key (codes "name")
    then ok (record d { name = unescape (next_word [] s).0 })
    else if bytes_eq key (codes "hp")
    then (let (hp, s1) = next_int d.hp s in
        ok (record d { hp = hp; max_hp = (next_int d.max_hp s1).0 }))
    else if bytes_eq key (codes "loc")
    then ok (record d { location = (next_word d.location s).0 })
    else if bytes_eq key (codes "inv")
    then (parse_item s >>= λ i. ok (record d { items = d.items ++ i ∷ [] }))
    else if bytes_eq key (codes "wloc")
    then (let (lid, s1) = next_word [] s in
        parse_item s1 >>= λ i. ok (record d { location_items = push_item lid i d.location_items }))
    else throw (unknown_key key)

unfoldable pub parse_lines : List (List ℕ) → Draft → Outcome SaveError Draft
unfolding bytes_eq parse_line
parse_lines [] d = ok d
parse_lines (l ∷ ls) d =
    let rest = parse_lines ls in if bytes_eq l [] then rest d else (parse_line l d >>= rest)

-- The first line.
unfoldable pub check_version : List ℕ → Outcome SaveError Unit
unfolding next_word next_int bytes_eq
check_version l =
    let (w, s) = next_word [] (stream l) in
    let ver = (next_int (pos 0) s).0 in
    if not (bytes_eq w (codes "SAVE"))
    then throw not_a_save
    else if not (ltb_ℤ ver current_version) && not (ltb_ℤ current_version ver)
    then ok tt
    else throw (incompatible_version ver)

-- Every location of the items is there.
unfoldable pub check_locations : World → Table Inventory → Outcome SaveError Unit
unfolding find_location
check_locations w [] = ok tt
check_locations w ((lid, items) ∷ t) =
    let rest = check_locations w t in
    elim (find_location lid w) [ none ↦ throw unknown_location | some l ↦ rest ]

unfoldable pub check_start : World → List ℕ → Outcome SaveError Unit
unfolding find_location
check_start w id = elim (find_location id w) [ none ↦ throw (unknown_start id) | some l ↦ ok tt ]

unfoldable pub add_items : List Item → Inventory → Inventory
unfolding add
add_items [] items = items
add_items (i ∷ is) items = add_items is (add (some i) items)

unfoldable pub clear_world : World → World
clear_world [] = []
clear_world ((key, l) ∷ w) = (key, record l { items = [] }) ∷ clear_world w

unfoldable pub fill_world : Table Inventory → World → World
unfolding find_location add_items
fill_world [] w = w
fill_world ((lid, items) ∷ t) w = fill_world t (elim (find_location lid w) [
  | none ↦ w
  | some l ↦ assign lid (record l { items = add_items items l.items }) w
])

-- The end of `read`: the player is made anew, and the items go to their places.
unfoldable pub apply_draft : Draft → Saved → Outcome SaveError Saved
unfolding make_player set_hp add_items clear_world fill_world
apply_draft d s = elim (make_player d.name d.max_hp) [
  | throw e ↦ throw (invalid_player e)
  | ok p ↦
      let p' = set_hp d.hp p in
      ok (record {
        player = record p' { inventory = add_items d.items p'.inventory };
        world = fill_world d.location_items (clear_world s.world);
        current_location_id = d.location;
      })
]

-- The checks of the locations, and the changes after them.
unfoldable pub finish_read : Draft → Saved → Outcome SaveError Saved
unfolding check_locations check_start apply_draft
finish_read d s = check_locations s.world d.location_items >>= λ _.
    check_start s.world d.location >>= λ _. apply_draft d s

unfoldable pub read_save : List (List ℕ) → Saved → Outcome SaveError Saved
unfolding check_version parse_lines finish_read
read_save [] s = throw empty_save
read_save (l ∷ ls) s = check_version l >>= λ _.
    parse_lines ls (record {
      name = s.player.name;
      hp = pos 0;
      max_hp = pos 1;
      location = [];
      items = [];
      location_items = [];
    })
    >>= λ d. finish_read d s

unfoldable pub read_body : List ℕ → Saved → Outcome SaveError Saved
unfolding lines read_save
read_body body s = read_save (lines body) s

-- The last line: its word, and the sum over the text before it.
unfoldable pub check_sum : List ℕ → List ℕ → Outcome SaveError Unit
unfolding next_word bytes_eq stoul_16 checksum_from
check_sum body chk_line =
    let (word, s) = next_word [] (stream chk_line) in
    let chk_hex = (next_word [] s).0 in
    if not (bytes_eq word (codes "CHK")) || not (length chk_hex == 8)
    then throw bad_checksum_line
    else stoul_16 chk_hex >>= λ expected.
        if expected % 2 ^ 32 == checksum body then ok tt else throw checksum_mismatch

-- `read` on the text of the file, where this can be opened.
unfoldable pub read : Option (List ℕ) → Saved → Outcome SaveError Saved
unfolding split_checksum check_sum read_body
read none s = throw not_opened
read (some text) s = elim (split_checksum text) [
  | none ↦ throw no_checksum
  | some (body, chk_line) ↦ check_sum body chk_line >>= λ _. read_body body s
]
