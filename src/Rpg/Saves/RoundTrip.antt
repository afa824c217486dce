-- ===== src/Rpg/Saves/RoundTrip.antt =====
-- A save of demo-rpg/src/save_manager.cpp, written and read back into a game over the same locations.
use c_book.Prelude.{
  ℕ, ◌≡◌, refl, ap, ◌∙◌, sym, true, List, [], ◌∷◌, ◌++◌, append_assoc, append-nil, some, All,
  All-append, All-map, inl, inr, codes, arith, ◌==◌, if◌then◌else◌, ok, throw, ◌>>=◌, none,
}
use c_book.Prelude.Int.{ℤ, pos, ltb_ℤ, ◌≤ℤ◌}
use c_book.Prelude.Tables.{find_key}
use c_book.Rpg.Items.{Inventory}
use c_book.Rpg.Player.{Player, IsPlayer, make_player, set_hp, not_negative, capped}
use c_book.Rpg.Places.{World, find_location}
use c_book.Rpg.Streams.{stream, next_word, next_int, print_int, lines}
use c_book.Rpg.Saves.Writing.{
  Saved, checksum, checksum_mismatch, escape, unescape, item_line, save_line, game_lines,
  no_checksum, inventory_lines, location_lines, world_lines, save_body, write, invalid_player,
  unknown_start,
}
use c_book.Rpg.Saves.Reading.{
  Draft, parse_line, parse_lines, check_start, apply_draft, clear_world, fill_world, add_items,
  check_version, finish_read, read_save, read_body, check_sum, read,
}
use c_book.Rpg.Saves.Words.{IsWord, IsInt32, lines-save_line, next_int-print_int}
use c_book.Rpg.Saves.Items.{
  IsName, IsSavable, escape-IsWord, unescape-escape, next_word-space, next_int-last,
}
use c_book.Rpg.Saves.Lines.{
  IsWord-IsLine, print_int-IsLine, parse_lines-save_line, parse_lines-inventory_lines,
  parse_lines-world_lines, push_world, IsPlace,
}
use c_book.Rpg.Saves.Filling.{
  AreDistinct, kept, push_world-kept, add_items-append, fill_world-clear_world, IsFound,
  found-other, check_locations-kept, all_found,
}
use c_book.Rpg.Saves.Sums.{
  IsWhole, IsWhole-append, checksum_from-lt, check_sum-save_line, split_checksum-last,
}

-- A state of the game that comes back: names without underscores, words for identifiers, numbers of 32
-- bits, and a current location that is there.
pub record IsGame (s : Saved) : Type 0 where
  pub player : IsPlayer s.player
  pub name : IsName s.player.name
  pub hp : IsInt32 s.player.hp
  pub max_hp : IsInt32 s.player.max_hp
  pub items : All IsSavable s.player.inventory
  pub places : All IsPlace s.world
  pub distinct : AreDistinct s.world
  pub word : IsWord s.current_location_id
  pub start : IsFound s.current_location_id s.world

next_word-last : (old w : List ℕ) → IsWord w → next_word old (stream (32 ∷ w)) ≡ (w, stream [])
next_word-last old w h =
    ap (λ l. next_word old (stream (32 ∷ l))) (sym (append-nil w)) ∙ next_word-space old w [] h tt

parse_line-name :
    (name : List ℕ) (d : Draft)
    → IsName name
    → parse_line (codes "name " ++ escape name) d ≡ ok (record d { name = name })
unfolding parse_line next_word
parse_line-name name d h =
    ap (λ o. ok (record d { name = unescape o.0 }))
      (next_word-last [] (escape name) (escape-IsWord name h))
    ∙ ap (λ n. ok (record d { name = n })) (unescape-escape name h)

parse_line-hp :
    (hp max_hp : ℤ) (d : Draft)
    → IsInt32 hp
    → IsInt32 max_hp
    → parse_line (codes "hp " ++ (print_int hp ++ (32 ∷ print_int max_hp))) d
      ≡ ok (record d { hp = hp; max_hp = max_hp })
unfolding parse_line next_word
parse_line-hp hp max_hp d h m =
    ap (λ o. ok (record d { hp = o.0; max_hp = (next_int d.max_hp o.1).0 }))
      (next_int-print_int d.hp hp (32 ∷ print_int max_hp) h refl)
    ∙ ap (λ o. ok (record d { hp = hp; max_hp = o.0 })) (next_int-last d.max_hp max_hp m)

parse_line-loc :
    (id : List ℕ) (d : Draft)
    → IsWord id
    → parse_line (codes "loc " ++ id) d ≡ ok (record d { location = id })
unfolding parse_line next_word
parse_line-loc id d h = ap (λ o. ok (record d { location = o.0 })) (next_word-last d.location id h)

-- What `read` collects from a save.
abbrev draft_of : Saved → Draft
draft_of s = record {
  name = s.player.name;
  hp = s.player.hp;
  max_hp = s.player.max_hp;
  location = s.current_location_id;
  items = s.player.inventory;
  location_items = push_world s.world [];
}

parse_lines-save :
    (s : Saved) (d : Draft)
    → IsGame s
    → d.items ≡ []
    → d.location_items ≡ []
    → parse_lines (lines (game_lines s)) d ≡ ok (draft_of s)
unfolding game_lines
parse_lines-save s d g e f =
    parse_lines-save_line 110 (codes "ame " ++ escape s.player.name) _ d _
      (
        refl,
        (
          refl,
          (
            refl,
            (
              refl,
              (refl, IsWord-IsLine (escape s.player.name) (escape-IsWord s.player.name g.name)),
            ),
          ),
        ),
      )
      (parse_line-name s.player.name d g.name)
    ∙ parse_lines-save_line 104
        (codes "p " ++ (print_int s.player.hp ++ (32 ∷ print_int s.player.max_hp))) _ _ _
        (
          refl,
          (
            refl,
            (
              refl,
              All-append _ (print_int s.player.hp) _ (print_int-IsLine s.player.hp)
                  (refl, print_int-IsLine s.player.max_hp),
            ),
          ),
        )
        (parse_line-hp s.player.hp s.player.max_hp _ g.hp g.max_hp)
    ∙ parse_lines-save_line 108 (codes "oc " ++ s.current_location_id) _ _ _
        (refl, (refl, (refl, (refl, IsWord-IsLine s.current_location_id g.word))))
        (parse_line-loc s.current_location_id _ g.word)
    ∙ parse_lines-inventory_lines s.player.inventory (world_lines s.world) _ g.items
    ∙ parse_lines-world_lines s.world _ g.places
    ∙ ap
        (λ l. ok (record (draft_of s) {
          items = l ++ s.player.inventory;
          location_items = push_world s.world d.location_items;
        }))
        e
    ∙ ap (λ t. ok (record (draft_of s) { location_items = push_world s.world t })) f

set_hp-same : (hp max_hp : ℤ) → pos 0 ≤ℤ hp → hp ≤ℤ max_hp → capped max_hp (not_negative hp) ≡ hp
unfolding capped not_negative
set_hp-same hp max_hp low high = ground arith

made_again :
    (p : Player)
    → IsPlayer p
    → make_player p.name p.max_hp ≡ ok (record p { hp = p.max_hp; inventory = [] })
unfolding make_player
made_again p v = rw (v.named) (rw (positive p.max_hp v.max_positive) refl)
  where
    positive : (m : ℤ) → pos 1 ≤ℤ m → ltb_ℤ (pos 0) m ≡ true
    positive m h = ground arith

apply_draft-game :
    (s o : Saved) (d : Draft)
    → IsGame s
    → clear_world s.world ≡ clear_world o.world
    → d ≡ record (draft_of s) { location_items = kept s.world }
    → apply_draft d o ≡ ok s
unfolding apply_draft set_hp
apply_draft-game s o d g same e =
    ap (λ x. apply_draft x o) e
    ∙ ap
        (λ m. elim m [
          | throw e ↦ throw (invalid_player e)
          | ok p ↦ ok (record {
            player = record p {
              hp = capped p.max_hp (not_negative s.player.hp);
              inventory = add_items s.player.inventory p.inventory;
            };
            world = fill_world (kept s.world) (clear_world o.world);
            current_location_id = s.current_location_id;
          })
        ])
        (made_again s.player g.player)
    ∙ ap
        (λ x. ok (record {
          player = record s.player { hp = x; inventory = add_items s.player.inventory [] };
          world = fill_world (kept s.world) (clear_world o.world);
          current_location_id = s.current_location_id;
        }))
        (set_hp-same s.player.hp s.player.max_hp g.player.hp_low g.player.hp_high)
    ∙ ap
        (λ l. ok (record {
          player = record s.player { inventory = l };
          world = fill_world (kept s.world) (clear_world o.world);
          current_location_id = s.current_location_id;
        }))
        (add_items-append [] s.player.inventory)
    ∙ ap (λ w. ok (record s { world = w }))
        (ap (fill_world (kept s.world)) (sym same)
          ∙ fill_world-clear_world s.world g.places g.distinct)

finish_read-game :
    (s o : Saved)
    → IsGame s
    → clear_world s.world ≡ clear_world o.world
    → (none_new : All (λ c. find_key {V = Inventory} c.0 [] ≡ none) s.world)
    → finish_read (draft_of s) o ≡ ok s
unfolding finish_read check_start find_location
finish_read-game s o g same none_new =
    let e = push_world-kept s.world [] g.places g.distinct none_new in
    let (l, found) = found-other s.current_location_id s.world o.world same g.start in
    ap (λ t. finish_read (record (draft_of s) { location_items = t }) o) e
    ∙ ap
        (λ c. c >>= λ _. check_start o.world s.current_location_id >>= λ _.
          apply_draft (record (draft_of s) { location_items = kept s.world }) o)
        (check_locations-kept o.world s.world (
          All-map (λ c f. found-other c.1.id s.world o.world same f) s.world
            (all_found s.world g.places g.distinct)))
    ∙ ap
        (λ c.
          (elim c [ none ↦ throw (unknown_start s.current_location_id) | some l ↦ ok tt ]) >>= λ _.
          apply_draft (record (draft_of s) { location_items = kept s.world }) o)
        found
    ∙ apply_draft-game s o _ g same refl

keys_new : (w : World) → All (λ c. find_key {V = Inventory} c.0 [] ≡ none) w
keys_new [] = tt
keys_new (c ∷ w) = (refl, keys_new w)

read_body-save_body :
    (s o : Saved)
    → IsGame s
    → clear_world s.world ≡ clear_world o.world
    → read_body (save_body s) o ≡ ok s
unfolding read_body save_body read_save check_version next_word next_int
read_body-save_body s o g same =
    ap (λ ls. read_save ls o)
      (lines-save_line (codes "SAVE " ++ print_int (pos 1)) (game_lines s)
        (refl, (refl, (refl, (refl, (refl, print_int-IsLine (pos 1)))))))
    ∙ ap (λ d. d >>= λ x. finish_read x o)
        (parse_lines-save s
          (record {
            name = o.player.name;
            hp = pos 0;
            max_hp = pos 1;
            location = [];
            items = [];
            location_items = [];
          })
          g refl refl)
    ∙ finish_read-game s o g same (keys_new s.world)

inventory_lines-IsWhole : (items : Inventory) → IsWhole (inventory_lines items)
unfolding inventory_lines
inventory_lines-IsWhole [] = inl refl
inventory_lines-IsWhole (i ∷ items) =
    IsWhole-append (save_line (codes "inv " ++ item_line i)) _
      (inr (codes "inv " ++ item_line i, refl)) (inventory_lines-IsWhole items)

location_lines-IsWhole : (id : List ℕ) (items : Inventory) → IsWhole (location_lines id items)
unfolding location_lines
location_lines-IsWhole id [] = inl refl
location_lines-IsWhole id (i ∷ items) =
    IsWhole-append (save_line (codes "wloc " ++ (id ++ (32 ∷ item_line i)))) _
      (inr (codes "wloc " ++ (id ++ (32 ∷ item_line i)), refl)) (location_lines-IsWhole id items)

world_lines-IsWhole : (w : World) → IsWhole (world_lines w)
unfolding world_lines
world_lines-IsWhole [] = inl refl
world_lines-IsWhole ((key, l) ∷ w) =
    IsWhole-append (location_lines l.id l.items) (world_lines w)
      (location_lines-IsWhole l.id l.items) (world_lines-IsWhole w)

whole-end : (l xs : List ℕ) → IsWhole xs → (m : List ℕ) × ((l ++ 10 ∷ []) ++ xs ≡ m ++ 10 ∷ [])
whole-end l xs (inl e) = (l, ap (λ t. (l ++ 10 ∷ []) ++ t) e ∙ append-nil (l ++ 10 ∷ []))
whole-end l xs (inr (m, e)) = (
  (l ++ 10 ∷ []) ++ m,
  ap (λ t. (l ++ 10 ∷ []) ++ t) e ∙ sym (append_assoc (l ++ 10 ∷ []) m (10 ∷ [])),
)

save_body-IsWhole : (s : Saved) → (l : List ℕ) × (save_body s ≡ l ++ 10 ∷ [])
unfolding save_body game_lines
save_body-IsWhole s =
    let name = codes "name " ++ escape s.player.name in
    let hp = codes "hp " ++ (print_int s.player.hp ++ (32 ∷ print_int s.player.max_hp)) in
    let loc = codes "loc " ++ s.current_location_id in
    whole-end (codes "SAVE " ++ print_int (pos 1)) (game_lines s) (
      IsWhole-append (save_line name) _ (inr (name, refl)) (
        IsWhole-append (save_line hp) _ (inr (hp, refl)) (
          IsWhole-append (save_line loc) _ (inr (loc, refl)) (
            IsWhole-append (inventory_lines s.player.inventory) (world_lines s.world)
              (inventory_lines-IsWhole s.player.inventory) (world_lines-IsWhole s.world)))))

pub read-write :
    (s o : Saved)
    → IsGame s
    → clear_world s.world ≡ clear_world o.world
    → (write true s >>= λ text. read (some text) o) ≡ ok s
unfolding read write
read-write s o g same =
    let body = save_body s in
    let sum = checksum body in
    ap
      (λ x. elim x [
        | none ↦ throw no_checksum
        | some (b, l) ↦ check_sum b l >>= λ _. read_body b o
      ])
      (split_checksum-last body sum (save_body-IsWhole s))
    ∙ ap (λ c. c >>= λ _. read_body body o)
        (check_sum-save_line body sum (checksum_from-lt 0 body (omega arith))
          ∙ ap (λ b. if b then ok tt else throw checksum_mismatch) (equal sum))
    ∙ read_body-save_body s o g same
  where
    equal : (n : ℕ) → (n == n) ≡ true
    equal n = ground arith
