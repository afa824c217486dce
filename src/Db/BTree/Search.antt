-- ===== src/Db/BTree/Search.antt =====
-- `std::lower_bound`, `std::upper_bound` and the insertions into a vector that
-- demo-db/src/btree.cpp uses on the sorted keys of a node.
use c_book.Prelude.{ℕ, Bool, List, [], ◌∷◌, ◌++◌, take, drop, if◌then◌else◌}
use c_book.Prelude.{suc, not, ◌&&◌, ◌||◌, Option, none, some, leb, length, get_or}
use c_book.Prelude.Int.{ℤ, pos, ltb_ℤ}

-- `*it == key` on two integers.
abbrev pub eqb_ℤ : ℤ → ℤ → Bool
eqb_ℤ a b = not (ltb_ℤ a b) && not (ltb_ℤ b a)

-- The index of the first key that is not below `key`; the number of keys when all are.
unfoldable pub lower_bound : List ℤ → ℤ → ℕ
lower_bound [] key = 0
lower_bound (k ∷ ks) key = let rest = lower_bound ks key in if ltb_ℤ k key then suc rest else 0

-- The index of the first key above `key`.
unfoldable pub upper_bound : List ℤ → ℤ → ℕ
upper_bound [] key = 0
upper_bound (k ∷ ks) key = let rest = upper_bound ks key in if ltb_ℤ key k then 0 else suc rest

-- The end of `find`: the value at the index of the key, where the key is there.
unfoldable pub found_value : List ℤ → List ℤ → ℤ → Option ℤ
unfolding lower_bound
found_value keys values key =
    let idx = lower_bound keys key in
    if leb (length keys) idx || not (eqb_ℤ (get_or keys idx (pos 0)) key)
    then none
    else some (get_or values idx (pos 0))

-- `v.insert(v.begin() + i, x)`.
abbrev pub insert_at : {A : Type 0} → ℕ → A → List A → List A
insert_at i x xs = take i xs ++ x ∷ drop i xs
