-- ===== src/Db/PageManager/Cache.antt =====
-- The two containers of the cache: `std::list<PageId>` in order of use, its head the front, and
-- `std::unordered_map` from page ids to entries, as an association list.
use c_book.Prelude.{
  ℕ, ◌+◌, ◌≤◌, ◌≡◌, refl, Bool, true, false, ◌||◌, List, [], ◌∷◌, Option, none, some, length, ◌==◌,
  if◌then◌else◌, arith,
}

pub record Entry : Type 0 where
  pub page : List ℕ
  pub dirty : Bool

abbrev pub Assoc : Type 0
Assoc = List (ℕ × Entry)

unfoldable pub lookup : ℕ → Assoc → Option Entry
lookup k [] = none
lookup k ((j, e) ∷ c) = if j == k then some e else lookup k c

-- A write through a reference to the entry of a key that is there.
unfoldable pub put : ℕ → Entry → Assoc → Assoc
put k e [] = []
put k e ((j, d) ∷ c) = if j == k then (k, e) ∷ c else (j, d) ∷ put k e c

unfoldable pub erase : ℕ → Assoc → Assoc
erase k [] = []
erase k ((j, e) ∷ c) = let rest = erase k c in if j == k then rest else (j, e) ∷ rest

-- `emplace` leaves a key that is there alone.
unfoldable pub emplace : ℕ → Entry → Assoc → Assoc
unfolding lookup
emplace k e c = elim (lookup k c) [ none ↦ (k, e) ∷ c | some d ↦ c ]

-- `lru_.erase(iterator)`: the one occurrence.
unfoldable pub remove : ℕ → List ℕ → List ℕ
remove k [] = []
remove k (x ∷ xs) = if x == k then xs else x ∷ remove k xs

unfoldable pub back : List ℕ → Option ℕ
back [] = none
back (x ∷ []) = some x
back (x ∷ y ∷ xs) = back (y ∷ xs)

unfoldable pub pop_back : List ℕ → List ℕ
pop_back [] = []
pop_back (x ∷ []) = []
pop_back (x ∷ y ∷ xs) = x ∷ pop_back (y ∷ xs)

abbrev pub mem : ℕ → List ℕ → Bool
mem k [] = false
mem k (x ∷ xs) = x == k || mem k xs

abbrev pub IsNodup : List ℕ → Type 0
IsNodup [] = Unit
IsNodup (x ∷ xs) = (mem x xs ≡ false) × IsNodup xs

pub lookup-put :
    (k j : ℕ) (e d : Entry) (c : Assoc)
    → lookup k c ≡ some d
    → lookup j (put k e c) ≡ (if k == j then some e else lookup j c)
unfolding lookup put
lookup-put k j e d [] h = cc
lookup-put k j e d ((i, x) ∷ c) h = ground (arith, lookup-put k j e d c)

pub length-put : (k : ℕ) (e : Entry) (c : Assoc) → length (put k e c) ≡ length c
unfolding put
length-put k e [] = refl
length-put k e ((j, d) ∷ c) = ground (arith, length-put k e c)

pub lookup-erase :
    (k j : ℕ) (c : Assoc) → lookup j (erase k c) ≡ (if k == j then none else lookup j c)
unfolding lookup erase
lookup-erase k j [] = ground arith
lookup-erase k j ((i, x) ∷ c) = ground (arith, lookup-erase k j c)

length-erase_le : (k : ℕ) (c : Assoc) → length (erase k c) ≤ length c
unfolding erase
length-erase_le k [] = omega arith
length-erase_le k ((j, d) ∷ c) = ground (arith, length-erase_le k c)

-- Erasing a key that is there makes room.
pub length-erase :
    (k : ℕ) (e : Entry) (c : Assoc) → lookup k c ≡ some e → length (erase k c) + 1 ≤ length c
unfolding lookup erase
length-erase k e [] h = cc
length-erase k e ((j, d) ∷ c) h = ground (arith, length-erase k e c, length-erase_le k c)

pub lookup-emplace :
    (k j : ℕ) (e : Entry) (c : Assoc)
    → lookup k c ≡ none
    → lookup j (emplace k e c) ≡ (if k == j then some e else lookup j c)
unfolding lookup emplace
lookup-emplace k j e c h = ground arith

pub length-emplace_le : (k : ℕ) (e : Entry) (c : Assoc) → length (emplace k e c) ≤ length c + 1
unfolding emplace
length-emplace_le k e c = ground arith

pub mem-remove :
    (k j : ℕ) (xs : List ℕ)
    → IsNodup xs
    → mem j (remove k xs) ≡ (if k == j then false else mem j xs)
unfolding remove
mem-remove k j [] h = ground arith
mem-remove k j (x ∷ xs) h = ground (arith, mem-remove k j xs h.1)

pub remove-IsNodup : (k : ℕ) (xs : List ℕ) → IsNodup xs → IsNodup (remove k xs)
unfolding remove
remove-IsNodup k [] h = tt
remove-IsNodup k (x ∷ xs) h = ground (arith, remove-IsNodup k xs h.1, mem-remove k x xs h.1)

pub back-mem : (xs : List ℕ) {v : ℕ} → back xs ≡ some v → mem v xs ≡ true
unfolding back
back-mem [] h = cc
back-mem (x ∷ []) h = ground arith
back-mem (x ∷ y ∷ xs) h = ground (arith, back-mem (y ∷ xs) h)

pub back-some : (v : ℕ) (xs : List ℕ) → mem v xs ≡ true → (w : ℕ) × (back xs ≡ some w)
unfolding back
back-some v [] h = cc
back-some v (x ∷ []) h = (x, refl)
back-some v (x ∷ y ∷ xs) h = back-some y (y ∷ xs) (ground arith)

pub mem-pop_back :
    (j v : ℕ) (xs : List ℕ)
    → IsNodup xs
    → back xs ≡ some v
    → mem j (pop_back xs) ≡ (if v == j then false else mem j xs)
unfolding back pop_back
mem-pop_back j v [] h e = cc
mem-pop_back j v (x ∷ []) h e = ground arith
mem-pop_back j v (x ∷ y ∷ xs) h e =
    ground (arith, mem-pop_back j v (y ∷ xs) h.1 e, back-mem (y ∷ xs) e)

pub pop_back-IsNodup : (xs : List ℕ) {v : ℕ} → IsNodup xs → back xs ≡ some v → IsNodup (pop_back xs)
unfolding back pop_back
pop_back-IsNodup [] h e = tt
pop_back-IsNodup (x ∷ []) h e = tt
pop_back-IsNodup (x ∷ y ∷ xs) {v} h e =
    (rw (mem-pop_back x v (y ∷ xs) h.1 e) (ground arith), pop_back-IsNodup (y ∷ xs) h.1 e)

-- No key twice, as in any `std::unordered_map`.
unfoldable pub IsDistinct : Assoc → Type 0
unfolding lookup
IsDistinct [] = Unit
IsDistinct ((k, e) ∷ c) = (lookup k c ≡ none) × IsDistinct c

lookup-put-none :
    (k j : ℕ) (e : Entry) (c : Assoc) → lookup j c ≡ none → lookup j (put k e c) ≡ none
unfolding lookup put
lookup-put-none k j e [] h = refl
lookup-put-none k j e ((i, d) ∷ c) h = ground (arith, lookup-put-none k j e c)

pub put-IsDistinct : (k : ℕ) (e : Entry) (c : Assoc) → IsDistinct c → IsDistinct (put k e c)
unfolding put IsDistinct
put-IsDistinct k e [] h = tt
put-IsDistinct k e ((i, d) ∷ c) (h, hs) =
    ground (arith, put-IsDistinct k e c hs, lookup-put-none k i e c h)

pub erase-IsDistinct : (k : ℕ) (c : Assoc) → IsDistinct c → IsDistinct (erase k c)
unfolding erase IsDistinct
erase-IsDistinct k [] h = tt
erase-IsDistinct k ((i, d) ∷ c) (h, hs) =
    ground (arith, erase-IsDistinct k c hs, lookup-erase k i c)

pub emplace-IsDistinct : (k : ℕ) (e : Entry) (c : Assoc) → IsDistinct c → IsDistinct (emplace k e c)
unfolding emplace IsDistinct
emplace-IsDistinct k e c h = ground arith
