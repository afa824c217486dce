-- ===== src/Rpg/Worlds.antt =====
-- demo-rpg/src/world_parser.cpp: the locations of the game, read from a text.
pub mod Filed
mod Tests
use c_book.Prelude.{
  ℕ, suc, Bool, true, false, not, ◌&&◌, ◌||◌, List, [], ◌∷◌, ◌++◌, map, Option, none, some, codes,
  bytes_eq, get_or, ◌==◌, if◌then◌else◌, Outcome, throw, ok, ◌>>=◌,
}
use c_book.Prelude.Int.{ℤ, pos}
use c_book.Prelude.Tables.{Table}
use c_book.Rpg.Items.{Item, weapon, armor, consumable, Inventory, add}
use c_book.Rpg.Places.{Location, World, make_location, add_exit, add_location}
use c_book.Rpg.Streams.{Stream, stream, next_word, next_int, lines}

-- The exceptions of the parser, with the number of the line.
pub data WorldError : Type 0 where
  not_opened : WorldError
  without_id incomplete_exit incomplete_item : ℕ → WorldError
  before_location unknown_keyword unknown_item_type : ℕ → List ℕ → WorldError

abbrev pub is_trimmed : ℕ → Bool
is_trimmed c = c == 32 || (c == 9 || c == 13)

-- From the first byte that is no blank on.
unfoldable pub trim_front : List ℕ → List ℕ
trim_front [] = []
trim_front (c ∷ cs) = let rest = trim_front cs in if is_trimmed c then rest else c ∷ cs

-- Up to the last byte that is no blank.
unfoldable pub trim_back : List ℕ → List ℕ
trim_back [] = []
trim_back (c ∷ cs) = elim (trim_back cs) [
  | [] ↦ if is_trimmed c then [] else c ∷ []
  | d ∷ ds ↦ c ∷ d ∷ ds
]

abbrev pub trim : List ℕ → List ℕ
trim s = trim_back (trim_front s)

unfoldable pub unescape_name : List ℕ → List ℕ
unescape_name s = map (λ c. if c == 95 then 32 else c) s

pub record LocationDraft : Type 0 where
  pub id : List ℕ
  pub name : List ℕ
  pub desc : List ℕ
  pub exits : Table (List ℕ)
  pub items : Inventory

abbrev pub no_draft : LocationDraft
no_draft = record { id = []; name = []; desc = []; exits = []; items = [] }

unfoldable pub add_exits : Table (List ℕ) → Location → Location
unfolding add_exit
add_exits [] l = l
add_exits ((direction, target) ∷ es) l = add_exits es (add_exit direction target l)

unfoldable pub add_all : List Item → Location → Location
unfolding add
add_all [] l = l
add_all (i ∷ is) l = add_all is (record l { items = add (some i) l.items })

unfoldable pub finalize : LocationDraft → Location
unfolding make_location add_exits add_all
finalize d = add_all d.items (add_exits d.exits (make_location d.id d.name d.desc))

unfoldable pub parse_item_line : Stream → ℕ → Outcome WorldError Item
unfolding next_word next_int unescape_name bytes_eq
parse_item_line s line_no =
    let (type, s1) = next_word [] s in
    let (name, s2) = next_word [] s1 in
    let (weight, s3) = next_int (pos 0) s2 in
    let (extra, s4) = next_int (pos 0) s3 in
    let pretty = unescape_name name in
    if s4.failed
    then throw (incomplete_item line_no)
    else if bytes_eq type (codes "weapon")
    then ok (weapon pretty weight extra)
    else if bytes_eq type (codes "armor")
    then ok (armor pretty weight extra)
    else if bytes_eq type (codes "consumable")
    then ok (consumable pretty weight extra)
    else throw (unknown_item_type line_no type)

-- The variables of `parse_world`; the draft is there after the first `location`.
pub record Parser : Type 0 where
  pub world : World
  pub draft : LocationDraft
  pub have_draft : Bool
  pub line_no : ℕ

unfoldable pub commit_draft : Parser → Parser
unfolding finalize add_location
commit_draft p =
    if p.have_draft
    then record p {
      world = add_location (finalize p.draft) p.world;
      have_draft = false;
      draft = no_draft;
    }
    else p

-- `std::getline` on what is left of the line.
abbrev pub rest_of_line : Stream → List ℕ
rest_of_line s = if s.failed then [] else s.rest

unfoldable pub parse_field : List ℕ → Stream → Parser → Outcome WorldError Parser
unfolding bytes_eq trim_front trim_back next_word parse_item_line
parse_field keyword s p =
    let d = p.draft in
    if bytes_eq keyword (codes "name")
    then ok (record p { draft = record d { name = trim (rest_of_line s) } })
    else if bytes_eq keyword (codes "desc")
    then ok (record p { draft = record d { desc = trim (rest_of_line s) } })
    else if bytes_eq keyword (codes "exit")
    then (let (dir, s1) = next_word [] s in
        let target = (next_word [] s1).0 in
        if bytes_eq dir [] || bytes_eq target []
        then throw (incomplete_exit p.line_no)
        else ok (record p { draft = record d { exits = d.exits ++ (dir, target) ∷ [] } }))
    else if bytes_eq keyword (codes "item")
    then (parse_item_line s p.line_no >>= λ i.
        ok (record p { draft = record d { items = d.items ++ i ∷ [] } }))
    else throw (unknown_keyword p.line_no keyword)

-- The new draft's identifier.
unfoldable pub parse_location : Stream → Parser → Outcome WorldError Parser
unfolding commit_draft next_word bytes_eq
parse_location s p =
    let p' = commit_draft p in
    let id = (next_word p'.draft.id s).0 in
    if bytes_eq id []
    then throw (without_id p'.line_no)
    else ok (record p' { draft = record (p'.draft) { id = id }; have_draft = true })

unfoldable pub parse_text : List ℕ → Parser → Outcome WorldError Parser
unfolding next_word bytes_eq parse_location parse_field
parse_text text p =
    let (keyword, s) = next_word [] (stream text) in
    if bytes_eq keyword (codes "location")
    then parse_location s p
    else if p.have_draft
    then parse_field keyword s p
    else throw (before_location p.line_no keyword)

unfoldable pub parse_world_line : List ℕ → Parser → Outcome WorldError Parser
unfolding trim_front trim_back bytes_eq parse_text
parse_world_line l p =
    let p' = record p { line_no = suc p.line_no } in
    let text = trim l in
    if bytes_eq text [] || get_or text 0 0 == 35 then ok p' else parse_text text p'

unfoldable pub parse_world_lines : List (List ℕ) → Parser → Outcome WorldError Parser
unfolding parse_world_line
parse_world_lines [] p = ok p
parse_world_lines (l ∷ ls) p = parse_world_line l p >>= parse_world_lines ls

abbrev pub fresh_parser : Parser
fresh_parser = record { world = []; draft = no_draft; have_draft = false; line_no = 0 }

unfoldable pub parse_world : List ℕ → Outcome WorldError World
unfolding lines parse_world_lines commit_draft
parse_world text = parse_world_lines (lines text) fresh_parser >>= λ p. ok (commit_draft p).world

unfoldable pub load_world : Option (List ℕ) → Outcome WorldError World
unfolding parse_world
load_world none = throw not_opened
load_world (some text) = parse_world text
