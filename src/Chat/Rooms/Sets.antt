-- ===== src/Chat/Rooms/Sets.antt =====
-- `std::unordered_set<int>` of demo-chat/utils/rooms_chat_server.cpp: a list without repetitions,
-- whose order is not looked at.
use c_book.Prelude.{ℕ, ◌≡◌, Bool, false, not, ◌&&◌, ◌||◌, List, [], ◌∷◌, ◌==◌, arith, if◌then◌else◌}

abbrev pub elem : ℕ → List ℕ → Bool
elem x [] = false
elem x (y ∷ ys) = x == y || elem x ys

abbrev pub IsDistinct : List ℕ → Type 0
IsDistinct [] = Unit
IsDistinct (x ∷ xs) = (elem x xs ≡ false) × IsDistinct xs

unfoldable pub set_insert : ℕ → List ℕ → List ℕ
set_insert x xs = if elem x xs then xs else x ∷ xs

unfoldable pub set_erase : ℕ → List ℕ → List ℕ
set_erase x [] = []
set_erase x (y ∷ ys) = let rest = set_erase x ys in if x == y then rest else y ∷ rest

pub elem-set_insert : (x y : ℕ) (xs : List ℕ) → elem y (set_insert x xs) ≡ (y == x || elem y xs)
unfolding set_insert
elem-set_insert x y xs = ground arith

pub elem-set_erase : (x y : ℕ) (xs : List ℕ) → elem y (set_erase x xs) ≡ (not (y == x) && elem y xs)
unfolding set_erase
elem-set_erase x y [] = ground arith
elem-set_erase x y (z ∷ xs) = ground (arith, elem-set_erase x y xs)

pub set_insert-IsDistinct : (x : ℕ) (xs : List ℕ) → IsDistinct xs → IsDistinct (set_insert x xs)
unfolding set_insert
set_insert-IsDistinct x xs h = ground arith

pub set_erase-IsDistinct : (x : ℕ) (xs : List ℕ) → IsDistinct xs → IsDistinct (set_erase x xs)
unfolding set_erase
set_erase-IsDistinct x [] h = tt
set_erase-IsDistinct x (y ∷ xs) h =
    ground (arith, set_erase-IsDistinct x xs h.1, elem-set_erase x y xs)
