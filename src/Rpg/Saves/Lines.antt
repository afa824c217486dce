-- ===== src/Rpg/Saves/Lines.antt =====
-- The lines of a save of demo-rpg/src/save_manager.cpp, and what `read` makes of each.
use c_book.Prelude.{
  ℕ, suc, ◌≡◌, refl, ap, ◌∙◌, sym, true, false, List, [], ◌∷◌, ◌++◌, append-nil, append_assoc, All,
  All-map, All-append, codes, arith, ◌==◌, ok, ◌>>=◌,
}
use c_book.Prelude.Int.{ℤ, pos, negsuc}
use c_book.Prelude.Tables.{Table}
use c_book.Rpg.Items.{Item, weapon, armor, consumable, Inventory}
use c_book.Rpg.Places.{Location, World}
use c_book.Rpg.Streams.{is_decimal, next_word, print_int, digits, lines}
use c_book.Rpg.Saves.Writing.{
  escape, fields, item_line, save_line, inventory_lines, location_lines, world_lines,
}
use c_book.Rpg.Saves.Reading.{Draft, parse_item, push_item, parse_line, parse_lines}
use c_book.Rpg.Saves.Words.{IsInk, IsWord, lines-save_line, digits-digit}
use c_book.Rpg.Saves.Items.{IsName, IsSavable, escape-IsWord, next_word-space, parse_item-item_line}

-- No line ends here.
abbrev pub IsLine : List ℕ → Type 0
IsLine l = All (λ c. (c == 10) ≡ false) l

ink-IsLine : (cs : List ℕ) → All IsInk cs → IsLine cs
ink-IsLine cs h = All-map ink cs h
  where
    ink : (c : ℕ) → IsInk c → (c == 10) ≡ false
    ink c h = ground arith

pub IsWord-IsLine : (w : List ℕ) → IsWord w → IsLine w
IsWord-IsLine [] h = tt
IsWord-IsLine (c ∷ cs) h = ink-IsLine (c ∷ cs) h

digits-IsLine : (f n : ℕ) → IsLine (digits f n)
digits-IsLine f n = All-map mark (digits f n) (digits-digit f n)
  where
    mark : (c : ℕ) → is_decimal c ≡ true → (c == 10) ≡ false
    mark c h = ground arith

pub print_int-IsLine : (n : ℤ) → IsLine (print_int n)
unfolding print_int
print_int-IsLine (pos n) = digits-IsLine 10 n
print_int-IsLine (negsuc n) = (refl, digits-IsLine 10 (suc n))

fields-IsLine :
    (type name : List ℕ) (w x : ℤ) → IsLine type → IsName name → IsLine (fields type name w x)
unfolding fields
fields-IsLine type name w x ht hn = All-append _ type _ ht (
  refl,
  All-append _ (escape name) _ (IsWord-IsLine (escape name) (escape-IsWord name hn))
      (refl, All-append _ (print_int w) _ (print_int-IsLine w) (refl, print_int-IsLine x)),
)

item_line-IsLine : (i : Item) → IsSavable i → IsLine (item_line i)
unfolding item_line
item_line-IsLine (weapon n w d) h =
    fields-IsLine (codes "weapon") n w d (refl, (refl, (refl, (refl, (refl, (refl, tt)))))) h.0
item_line-IsLine (armor n w d) h =
    fields-IsLine (codes "armor") n w d (refl, (refl, (refl, (refl, (refl, tt))))) h.0
item_line-IsLine (consumable n w d) h =
    fields-IsLine (codes "consumable") n w d
      (refl, (refl, (refl, (refl, (refl, (refl, (refl, (refl, (refl, (refl, tt)))))))))) h.0

-- One save_line, and on.
pub parse_lines-save_line :
    (c : ℕ) (l rest : List ℕ) (d d' : Draft)
    → IsLine (c ∷ l)
    → parse_line (c ∷ l) d ≡ ok d'
    → parse_lines (lines (save_line (c ∷ l) ++ rest)) d ≡ parse_lines (lines rest) d'
unfolding parse_lines
parse_lines-save_line c l rest d d' h e =
    ap (λ ls. parse_lines ls d) (lines-save_line (c ∷ l) rest h)
    ∙ ap (λ o. o >>= parse_lines (lines rest)) e

parse_line-inv :
    (i : Item) (d : Draft)
    → IsSavable i
    → parse_line (codes "inv " ++ item_line i) d ≡ ok (record d { items = d.items ++ i ∷ [] })
unfolding parse_line next_word
parse_line-inv i d h =
    ap (λ o. o >>= λ j. ok (record d { items = d.items ++ j ∷ [] })) (parse_item-item_line i h)

parse_line-wloc :
    (id : List ℕ) (i : Item) (d : Draft)
    → IsWord id
    → IsSavable i
    → parse_line (codes "wloc " ++ (id ++ (32 ∷ item_line i))) d
      ≡ ok (record d { location_items = push_item id i d.location_items })
unfolding parse_line next_word
parse_line-wloc id i d hid h =
    ap
      (λ o.
        parse_item o.1 >>= λ j. ok (record d { location_items = push_item o.0 j d.location_items }))
      (next_word-space [] id (32 ∷ item_line i) hid refl)
    ∙ ap (λ o. o >>= λ j. ok (record d { location_items = push_item id j d.location_items }))
        (parse_item-item_line i h)

pub parse_lines-inventory_lines :
    (items : Inventory) (rest : List ℕ) (d : Draft)
    → All IsSavable items
    → parse_lines (lines (inventory_lines items ++ rest)) d
      ≡ parse_lines (lines rest) (record d { items = d.items ++ items })
unfolding inventory_lines
parse_lines-inventory_lines [] rest d h =
    ap (λ l. parse_lines (lines rest) (record d { items = l })) (sym (append-nil d.items))
parse_lines-inventory_lines (i ∷ items) rest d h =
    let l = codes "inv " ++ item_line i in
    ap (λ t. parse_lines (lines t) d) (append_assoc (save_line l) (inventory_lines items) rest)
    ∙ parse_lines-save_line 105 (codes "nv " ++ item_line i) (inventory_lines items ++ rest) d _
        (refl, (refl, (refl, (refl, item_line-IsLine i h.0)))) (parse_line-inv i d h.0)
    ∙ parse_lines-inventory_lines items rest (record d { items = d.items ++ i ∷ [] }) h.1
    ∙ ap (λ t. parse_lines (lines rest) (record d { items = t }))
        (append_assoc d.items (i ∷ []) items)

-- What `read` makes of the items of the locations, in the order of the lines.
abbrev pub push_items : List ℕ → Inventory → Table Inventory → Table Inventory
push_items id [] t = t
push_items id (i ∷ items) t = push_items id items (push_item id i t)

abbrev pub push_world : World → Table Inventory → Table Inventory
push_world [] t = t
push_world ((key, l) ∷ w) t = push_world w (push_items l.id l.items t)

parse_lines-location_lines :
    (id : List ℕ) (items : Inventory) (rest : List ℕ) (d : Draft)
    → IsWord id
    → All IsSavable items
    → parse_lines (lines (location_lines id items ++ rest)) d
      ≡ parse_lines
          (lines rest)
          (record d { location_items = push_items id items d.location_items })
unfolding location_lines
parse_lines-location_lines id [] rest d hid h = refl
parse_lines-location_lines id (i ∷ items) rest d hid h =
    let l = codes "wloc " ++ (id ++ (32 ∷ item_line i)) in
    ap (λ t. parse_lines (lines t) d) (append_assoc (save_line l) (location_lines id items) rest)
    ∙ parse_lines-save_line 119 (codes "loc " ++ (id ++ (32 ∷ item_line i)))
        (location_lines id items ++ rest) d
        (record d { location_items = push_item id i d.location_items })
        (
          refl,
          (
            refl,
            (
              refl,
              (
                refl,
                (refl, All-append _ id _ (IsWord-IsLine id hid) (refl, item_line-IsLine i h.0)),
              ),
            ),
          ),
        )
        (parse_line-wloc id i d hid h.0)
    ∙ parse_lines-location_lines id items rest
        (record d { location_items = push_item id i d.location_items }) hid h.1

-- A location whose items come back, under its own name.
abbrev pub IsPlace : List ℕ × Location → Type 0
IsPlace (key, l) = (key ≡ l.id) × IsWord l.id × All IsSavable l.items

pub parse_lines-world_lines :
    (w : World) (d : Draft)
    → All IsPlace w
    → parse_lines (lines (world_lines w)) d
      ≡ ok (record d { location_items = push_world w d.location_items })
unfolding world_lines lines parse_lines
parse_lines-world_lines [] d h = refl
parse_lines-world_lines ((key, l) ∷ w) d h =
    parse_lines-location_lines l.id l.items (world_lines w) d h.0.1 h.0.2
    ∙ parse_lines-world_lines w
        (record d { location_items = push_items l.id l.items d.location_items }) h.1
