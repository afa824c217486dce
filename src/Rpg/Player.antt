-- ===== src/Rpg/Player.antt =====
-- demo-rpg/include/player.h and demo-rpg/src/player.cpp.
use c_book.Prelude.{
  ℕ, ◌≡◌, refl, Bool, false, List, [], Outcome, ok, throw, bytes_eq, bytes_eq_iff, if◌then◌else◌,
  arith, Bool-cases, ◌^◌, ◌-◌, subst, sym, inl, inr, ◌⊎◌, not,
}
use c_book.Prelude.Int.{ℤ, pos, negsuc, ◌+ℤ◌, ◌-ℤ◌, ◌≤ℤ◌, ltb_ℤ, +ℤ_parts, -ℤ_parts}
use c_book.Rpg.Items.{Inventory}

pub data ValidationError : Type 0 where
  empty_name max_hp_not_positive : ValidationError

pub record Player : Type 0 where
  pub name : List ℕ
  pub max_hp : ℤ
  pub hp : ℤ
  pub inventory : Inventory

unfoldable pub make_player : List ℕ → ℤ → Outcome ValidationError Player
unfolding bytes_eq
make_player name max_hp =
    if bytes_eq name []
    then throw empty_name
    else if not (ltb_ℤ (pos 0) max_hp)
    then throw max_hp_not_positive
    else ok (record { name = name; max_hp = max_hp; hp = max_hp; inventory = [] })

pub is_alive : Player → Bool
is_alive p = ltb_ℤ (pos 0) p.hp

-- `if (amount < 0) amount = 0;`
unfoldable pub not_negative : ℤ → ℤ
not_negative amount = if ltb_ℤ amount (pos 0) then pos 0 else amount

-- `if (hp > max_hp_) hp = max_hp_;`
unfoldable pub capped : ℤ → ℤ → ℤ
capped max_hp hp = if ltb_ℤ max_hp hp then max_hp else hp

unfoldable pub take_damage : ℤ → Player → Player
unfolding not_negative ◌-ℤ◌
take_damage amount p = record p { hp = not_negative (p.hp -ℤ not_negative amount) }

abbrev pub max_int : ℤ
max_int = pos (2 ^ 31 - 1)

-- `hp_ += amount` for an `amount` that is not negative. An `int` past its range is undefined in C++;
-- here it wraps around.
unfoldable pub add_int : ℤ → ℤ → ℤ
unfolding ◌+ℤ◌ ◌-ℤ◌
add_int a b = let sum = a +ℤ b in if ltb_ℤ max_int sum then sum -ℤ pos (2 ^ 32) else sum

unfoldable pub heal : ℤ → Player → Player
unfolding not_negative capped add_int
heal amount p = record p { hp = capped p.max_hp (add_int p.hp (not_negative amount)) }

unfoldable pub set_hp : ℤ → Player → Player
unfolding not_negative capped
set_hp hp p = record p { hp = capped p.max_hp (not_negative hp) }

-- The points are between 0 and a positive maximum, and there is a name.
pub record IsPlayer (p : Player) : Type 0 where
  pub named : bytes_eq p.name [] ≡ false
  pub max_positive : pos 1 ≤ℤ p.max_hp
  pub hp_low : pos 0 ≤ℤ p.hp
  pub hp_high : p.hp ≤ℤ p.max_hp

not_negative-low : (a : ℤ) → pos 0 ≤ℤ not_negative a
unfolding not_negative
not_negative-low (pos n) = ground arith
not_negative-low (negsuc n) = ground arith

not_negative-high : (a m : ℤ) → pos 0 ≤ℤ m → a ≤ℤ m → not_negative a ≤ℤ m
unfolding not_negative
not_negative-high (pos n) m h k = ground arith
not_negative-high (negsuc n) m h k = ground arith

capped-low : (m h : ℤ) → pos 0 ≤ℤ m → pos 0 ≤ℤ h → pos 0 ≤ℤ capped m h
unfolding capped
capped-low m h p q = ground arith

capped-high : (m h : ℤ) → capped m h ≤ℤ m
unfolding capped
capped-high m h = ground arith

less : (a b m : ℤ) → a ≤ℤ m → pos 0 ≤ℤ b → a -ℤ b ≤ℤ m
less a b m h k = omega (arith, -ℤ_parts a b)

more : (a b : ℤ) → pos 0 ≤ℤ a → pos 0 ≤ℤ b → pos 0 ≤ℤ a +ℤ b
more a b h k = omega (arith, +ℤ_parts a b)

positive : (m : ℤ) → pos 1 ≤ℤ m → pos 0 ≤ℤ m
positive m h = omega arith

add_int-in_range : (a b : ℤ) → a +ℤ b ≤ℤ max_int → add_int a b ≡ a +ℤ b
unfolding add_int
add_int-in_range a b h = ground arith

-- What healing needs: the sum of the points and of the amount is an `int`.
abbrev pub HealsInRange : ℤ → Player → Type 0
HealsInRange amount p = p.hp +ℤ not_negative amount ≤ℤ max_int

-- A player in order, who is the one of before but for the points.
pub record Changed (p p' : Player) : Type 0 where
  pub in_order : IsPlayer p'
  pub same_name : p'.name ≡ p.name
  pub same_max : p'.max_hp ≡ p.max_hp
  pub same_items : p'.inventory ≡ p.inventory

healed-low :
    (amount : ℤ) (p : Player)
    → IsPlayer p
    → HealsInRange amount p
    → pos 0 ≤ℤ capped p.max_hp (add_int p.hp (not_negative amount))
healed-low amount p v range =
    capped-low p.max_hp (add_int p.hp (not_negative amount)) (positive p.max_hp v.max_positive) (
      subst (λ s. pos 0 ≤ℤ s) (sym (add_int-in_range p.hp (not_negative amount) range))
        (more p.hp (not_negative amount) v.hp_low (not_negative-low amount)))

-- Damage, healing and setting the points, by amounts that may be negative, keep the name, the maximum
-- and the inventory of a player in order, and leave the points between 0 and the maximum. For healing
-- the points and the amount together have to be at most 2 ^ 31 - 1.
pub operations-IsPlayer :
    (damage amount hp : ℤ) (p : Player)
    → IsPlayer p
    → HealsInRange amount p
    → Changed p (take_damage damage p) × (Changed p (heal amount p) × Changed p (set_hp hp p))
unfolding take_damage heal set_hp
operations-IsPlayer damage amount hp p v range = (
  record {
    in_order = record {
      named = v.named;
      max_positive = v.max_positive;
      hp_low = not_negative-low (p.hp -ℤ not_negative damage);
      hp_high =
          not_negative-high (p.hp -ℤ not_negative damage) p.max_hp
            (positive p.max_hp v.max_positive)
            (less p.hp (not_negative damage) p.max_hp v.hp_high (not_negative-low damage));
    };
    same_name = refl;
    same_max = refl;
    same_items = refl;
  },
  (
    record {
      in_order = record {
        named = v.named;
        max_positive = v.max_positive;
        hp_low = healed-low amount p v range;
        hp_high = capped-high p.max_hp (add_int p.hp (not_negative amount));
      };
      same_name = refl;
      same_max = refl;
      same_items = refl;
    },
    record {
      in_order = record {
        named = v.named;
        max_positive = v.max_positive;
        hp_low =
            capped-low p.max_hp (not_negative hp) (positive p.max_hp v.max_positive)
              (not_negative-low hp);
        hp_high = capped-high p.max_hp (not_negative hp);
      };
      same_name = refl;
      same_max = refl;
      same_items = refl;
    },
  ),
)

-- The constructor throws on an empty name, and on a maximum that is not positive. Otherwise it makes
-- a player with all points, between 0 and the maximum.
pub make_player-IsPlayer :
    (name : List ℕ) (max_hp : ℤ)
    → ((name ≡ []) × (make_player name max_hp ≡ throw empty_name))
      ⊎ ((max_hp ≤ℤ pos 0) × (make_player name max_hp ≡ throw max_hp_not_positive))
      ⊎ ((p : Player) × (make_player name max_hp ≡ ok p) × IsPlayer p × (p.hp ≡ max_hp))
unfolding make_player
make_player-IsPlayer name max_hp = elim (Bool-cases (bytes_eq name [])) [
  | inl nameless ↦ inl ((bytes_eq_iff name []).0 nameless, rw nameless)
  | inr named ↦ elim (Bool-cases (ltb_ℤ (pos 0) max_hp)) [
    | inl good ↦ inr (
        inr (
          record { name = name; max_hp = max_hp; hp = max_hp; inventory = [] },
          rw (named, good) refl,
          record {
            named = named;
            max_positive = ground arith;
            hp_low = ground arith;
            hp_high = omega arith;
          },
          refl,
        ))
    | inr bad ↦ inr (inl (ground arith, rw (named, bad) refl))
  ]
]
