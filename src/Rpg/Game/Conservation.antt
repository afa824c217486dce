-- ===== src/Rpg/Game/Conservation.antt =====
-- Nothing that lies in the world or in the inventory is lost or doubled by `take` and `drop`.
use c_book.Prelude.{
  ℕ, ◌+◌, ◌≡◌, refl, ap, ◌∙◌, sym, subst, Bool, List, [], ◌∷◌, Option, none, some, Option-cases,
  inl, inr, arith,
}
use c_book.Prelude.Int.{ℤ, pos}
use c_book.Prelude.Tables.{find_key, assign}
use c_book.Rpg.Items.{
  Item, weapon, armor, consumable, Inventory, add, take, find, count, one, held, count-add,
  count-take, take-find,
}
use c_book.Rpg.Player.{heal, IsPlayer, HealsInRange, operations-IsPlayer}
use c_book.Rpg.Places.{Location, World, find_location}
use c_book.Rpg.Game.{Game, with_items, cmd_take, cmd_drop, cmd_use}

unfoldable pub in_world : (Item → Bool) → World → ℕ
in_world p [] = 0
in_world p ((id, l) ∷ w) = count p l.items + in_world p w

-- How many items of the world and of the player a test picks.
abbrev pub all_items : (Item → Bool) → Game → ℕ
all_items p g = count p g.player.inventory + in_world p g.world

in_world-assign :
    (p : Item → Bool) (id : List ℕ) (old new : Location) (w : World)
    → find_key id w ≡ some old
    → in_world p (assign id new w) + count p old.items ≡ in_world p w + count p new.items
unfolding in_world
in_world-assign p id old new [] h = cc
in_world-assign p id old new ((j, l) ∷ w) h = ground (arith, in_world-assign p id old new w)

with_items-count :
    (p : Item → Bool) (l : Location) (there own : Inventory) (g : Game)
    → find_location g.current_location_id g.world ≡ some l
    → all_items p (with_items g.current_location_id l there own g) + count p l.items
      ≡ count p own + count p there + in_world p g.world
unfolding with_items find_location
with_items-count p l there own g h =
    omega (arith, in_world-assign p g.current_location_id l (record l { items = there }) g.world h)

cmd_take-here :
    (n : List ℕ) (l : Location) (i : Item) (g : Game)
    → find_location g.current_location_id g.world ≡ some l
    → (take n l.items).0 ≡ some i
    → cmd_take n g
      ≡ with_items g.current_location_id l (take n l.items).1 (add (some i) g.player.inventory) g
unfolding cmd_take
cmd_take-here n l i g h k = ground arith

cmd_take-absent :
    (n : List ℕ) (l : Location) (g : Game)
    → find_location g.current_location_id g.world ≡ some l
    → (take n l.items).0 ≡ none
    → cmd_take n g ≡ g
unfolding cmd_take
cmd_take-absent n l g h k = ground arith

cmd_drop-here :
    (n : List ℕ) (l : Location) (i : Item) (g : Game)
    → find_location g.current_location_id g.world ≡ some l
    → (take n g.player.inventory).0 ≡ some i
    → cmd_drop n g
      ≡ with_items g.current_location_id l (add (some i) l.items) (take n g.player.inventory).1 g
unfolding cmd_drop
cmd_drop-here n l i g h k = ground arith

cmd_drop-absent : (n : List ℕ) (g : Game) → (take n g.player.inventory).0 ≡ none → cmd_drop n g ≡ g
unfolding cmd_drop
cmd_drop-absent n g k = ground arith

module _ (p : Item → Bool) (n : List ℕ) (l : Location) (g : Game)
    (here : find_location g.current_location_id g.world ≡ some l) where
  taken : all_items p (cmd_take n g) ≡ all_items p g
  taken = elim (Option-cases (take n l.items).0) [
    | inl none_there ↦ ap (all_items p) (cmd_take-absent n l g here none_there)
    | inr (i, picked) ↦
        ap (all_items p) (cmd_take-here n l i g here picked)
        ∙ omega (
          arith,
          with_items-count p l (take n l.items).1 (add (some i) g.player.inventory) g here,
          count-add p (some i) g.player.inventory,
          ap (held p) picked,
          count-take p n l.items,
        )
  ]

  dropped : all_items p (cmd_drop n g) ≡ all_items p g
  dropped = elim (Option-cases (take n g.player.inventory).0) [
    | inl none_there ↦ ap (all_items p) (cmd_drop-absent n g none_there)
    | inr (i, picked) ↦
        ap (all_items p) (cmd_drop-here n l i g here picked)
        ∙ omega (
          arith,
          with_items-count p l (add (some i) l.items) (take n g.player.inventory).1 g here,
          count-add p (some i) l.items,
          ap (held p) picked,
          count-take p n g.player.inventory,
        )
  ]

-- In a location of the world, `take` and `drop` of any name keep the items: every test picks as
-- many of them, in the world and the inventory together, as before.
pub take-drop_conserve :
    (p : Item → Bool) (n : List ℕ) (l : Location) (g : Game)
    → find_location g.current_location_id g.world ≡ some l
    → (all_items p (cmd_take n g) ≡ all_items p g) × (all_items p (cmd_drop n g) ≡ all_items p g)
take-drop_conserve p n l g here = (taken p n l g here, dropped p n l g here)

-- What `use` does to the items: one goes if the first of the name is a consumable.
abbrev pub used_up : (Item → Bool) → Option Item → ℕ
used_up p none = 0
used_up p (some (weapon n w d)) = 0
used_up p (some (armor n w d)) = 0
used_up p (some (consumable n w h)) = one p (consumable n w h)

drink : List ℕ → ℤ → Game → Game
drink item h g = record g {
  player = record (heal h g.player) { inventory = (take item g.player.inventory).1 };
}

module _ (item : List ℕ) (g : Game) where
  cmd_use-consumable :
      (n : List ℕ) (w h : ℤ)
      → find item g.player.inventory ≡ some (consumable n w h)
      → cmd_use item g ≡ drink item h g
  unfolding cmd_use heal drink
  cmd_use-consumable n w h found = ground arith

  cmd_use-none : find item g.player.inventory ≡ none → cmd_use item g ≡ g
  unfolding cmd_use
  cmd_use-none found = ground arith

  cmd_use-weapon :
      (n : List ℕ) (w d : ℤ)
      → find item g.player.inventory ≡ some (weapon n w d)
      → cmd_use item g ≡ g
  unfolding cmd_use
  cmd_use-weapon n w d found = ground arith

  cmd_use-armor :
      (n : List ℕ) (w d : ℤ)
      → find item g.player.inventory ≡ some (armor n w d)
      → cmd_use item g ≡ g
  unfolding cmd_use
  cmd_use-armor n w d found = ground arith

drink-items :
    (p : Item → Bool) (item n : List ℕ) (w h : ℤ) (g : Game)
    → find item g.player.inventory ≡ some (consumable n w h)
    → all_items p (drink item h g) + one p (consumable n w h) ≡ all_items p g
unfolding drink heal
drink-items p item n w h g found = omega (
  arith,
  count-take p item g.player.inventory,
  ap (held p) (take-find item g.player.inventory ∙ found),
)

drink-IsPlayer :
    (item : List ℕ) (h : ℤ) (g : Game)
    → IsPlayer (heal h g.player)
    → IsPlayer (drink item h g).player
unfolding drink heal
drink-IsPlayer item h g v = record {
  named = v.named;
  max_positive = v.max_positive;
  hp_low = v.hp_low;
  hp_high = v.hp_high;
}

-- A use: the items after it and what was used up are the items before it, and the player is in order.
abbrev Used : (Item → Bool) → Game → Option Item → Game → Type 0
Used p g o g' = (all_items p g' + used_up p o ≡ all_items p g) × IsPlayer g'.player

-- A use of a consumable heals within the range of `int`.
abbrev pub UsesInRange : Option Item → Game → Type 0
UsesInRange none g = Unit
UsesInRange (some (weapon n w d)) g = Unit
UsesInRange (some (armor n w d)) g = Unit
UsesInRange (some (consumable n w h)) g = HealsInRange h g.player

use_of :
    (p : Item → Bool) (item : List ℕ) (g : Game) (o : Option Item)
    → IsPlayer g.player
    → UsesInRange o g
    → find item g.player.inventory ≡ o
    → Used p g o (cmd_use item g)
use_of p item g none v range found =
    subst (Used p g none) (sym (cmd_use-none item g found)) (omega arith, v)
use_of p item g (some (weapon n w d)) v range found =
    subst (Used p g (some (weapon n w d))) (sym (cmd_use-weapon item g n w d found))
      (omega arith, v)
use_of p item g (some (armor n w d)) v range found =
    subst (Used p g (some (armor n w d))) (sym (cmd_use-armor item g n w d found)) (omega arith, v)
use_of p item g (some (consumable n w h)) v range found =
    subst (Used p g (some (consumable n w h))) (sym (cmd_use-consumable item g n w h found)) (
      drink-items p item n w h g found,
      drink-IsPlayer item h g
          ((operations-IsPlayer (pos 0) h (pos 0) g.player v range).1.0.in_order),
    )

-- `use` of any name takes one item away if the first item of the name is a consumable, and none
-- otherwise, and the points of a player in order stay between 0 and the maximum, where the points and
-- what such a consumable adds are together at most 2 ^ 31 - 1.
pub cmd_use_lem :
    (p : Item → Bool) (item : List ℕ) (g : Game)
    → IsPlayer g.player
    → UsesInRange (find item g.player.inventory) g
    → (all_items p (cmd_use item g) + used_up p (find item g.player.inventory) ≡ all_items p g)
      × IsPlayer (cmd_use item g).player
cmd_use_lem p item g v range = use_of p item g (find item g.player.inventory) v range refl
