-- ===== src/Rpg/Items.antt =====
-- demo-rpg/include/item.h, inventory.h and demo-rpg/src/item.cpp, inventory.cpp. An item is its
-- fields, and the inventory owns what its list holds; a null pointer is `none`. Names are the bytes
-- of their strings, an `int` is an integer: sums that overflow it are undefined in the code.
use c_book.Prelude.{
  ℕ, ◌+◌, ◌≡◌, refl, Bool, true, false, List, [], ◌∷◌, ◌++◌, Option, none, some, bytes_eq,
  if◌then◌else◌, arith,
}
use c_book.Prelude.Int.{ℤ, pos, ◌+ℤ◌}

pub data Item : Type 0 where
  weapon armor consumable : (name : List ℕ) (weight amount : ℤ) → Item

unfoldable pub item_name : Item → List ℕ
item_name (weapon n w d) = n
item_name (armor n w d) = n
item_name (consumable n w h) = n

unfoldable pub weight : Item → ℤ
weight (weapon n w d) = w
weight (armor n w d) = w
weight (consumable n w h) = w

abbrev pub Inventory : Type 0
Inventory = List Item

unfoldable pub add : Option Item → Inventory → Inventory
add none items = items
add (some i) items = items ++ i ∷ []

-- The item that was taken out, and what is left.
unfoldable pub take : List ℕ → Inventory → Option Item × Inventory
unfolding item_name bytes_eq
take n [] = (none, [])
take n (i ∷ items) =
    let rest = take n items in
    if bytes_eq (item_name i) n then (some i, items) else (rest.0, i ∷ rest.1)

unfoldable pub find : List ℕ → Inventory → Option Item
unfolding item_name bytes_eq
find n [] = none
find n (i ∷ items) = let rest = find n items in if bytes_eq (item_name i) n then some i else rest

pub is_empty : Inventory → Bool
is_empty [] = true
is_empty (i ∷ items) = false

pub clear : Inventory → Inventory
clear items = []

pub total_weight : Inventory → ℤ
unfolding weight ◌+ℤ◌
total_weight [] = pos 0
total_weight (i ∷ items) = weight i +ℤ total_weight items

-- How many of the items a test picks; a pointer that may be null holds one or none.
abbrev pub one : (Item → Bool) → Item → ℕ
one p i = if p i then 1 else 0

unfoldable pub count : (Item → Bool) → Inventory → ℕ
count p [] = 0
count p (i ∷ items) = one p i + count p items

abbrev pub held : (Item → Bool) → Option Item → ℕ
held p none = 0
held p (some i) = one p i

pub count-add :
    (p : Item → Bool) (o : Option Item) (items : Inventory)
    → count p (add o items) ≡ count p items + held p o
unfolding count add
count-add p none items = omega arith
count-add p (some i) [] = omega arith
count-add p (some i) (j ∷ items) = omega (arith, count-add p (some i) items)

pub count-take :
    (p : Item → Bool) (n : List ℕ) (items : Inventory)
    → held p (take n items).0 + count p (take n items).1 ≡ count p items
unfolding count take
count-take p n [] = refl
count-take p n (i ∷ items) = ground (arith, count-take p n items)

pub take-find : (n : List ℕ) (items : Inventory) → (take n items).0 ≡ find n items
unfolding take find
take-find n [] = refl
take-find n (i ∷ items) = ground (arith, take-find n items)

-- Nothing is taken from an inventory without an item of the name.
pub take-absent :
    (n : List ℕ) (items : Inventory) → (take n items).0 ≡ none → (take n items).1 ≡ items
unfolding take
take-absent n [] h = refl
take-absent n (i ∷ items) h = ground (arith, take-absent n items)
