-- ===== src/Db/BTree/Inserting/Places.antt =====
-- What `insert` of demo-db/src/btree.cpp does to the keys and the values of a leaf, at the index of
-- `std::lower_bound`, against the rows with the row put in.
use c_book.Prelude.{
  ℕ, ◌+◌, ◌≡◌, refl, true, false, Bool, ◌&&◌, List, [], ◌∷◌, map, Option, All, length, set, get_or,
  ltb, arith, inl, inr, Bool-cases,
}
use c_book.Prelude.Int.{ℤ, pos, ltb_ℤ, ◌≤ℤ◌, ◌<ℤ◌}
use c_book.Db.Wal.{Row}
use c_book.Db.BTree.Search.{eqb_ℤ, lower_bound, insert_at}
use c_book.Db.BTree.Shape.{IsAbove, IsBelow, AreRising}
use c_book.Db.BTree.Inserting.Rows.{put_row}

abbrev pub row_keys : List Row → List ℤ
row_keys rows = map (λ r. r.0) rows

abbrev pub row_values : List Row → List ℤ
row_values rows = map (λ r. r.1) rows

pub five_lem :
    {A : Type 0} (xs : List A)
    → length xs ≡ 5
    → (a : A) × (b : A) × (c : A) × (d : A) × (x : A) × (xs ≡ a ∷ b ∷ c ∷ d ∷ x ∷ [])
five_lem (a ∷ b ∷ c ∷ d ∷ x ∷ []) e = (a, b, c, d, x, refl)
five_lem [] e = absurd (omega arith)
five_lem (a ∷ []) e = absurd (omega arith)
five_lem (a ∷ b ∷ []) e = absurd (omega arith)
five_lem (a ∷ b ∷ c ∷ []) e = absurd (omega arith)
five_lem (a ∷ b ∷ c ∷ d ∷ []) e = absurd (omega arith)
five_lem (a ∷ b ∷ c ∷ d ∷ x ∷ y ∷ xs) e = absurd (omega arith)

-- The test of `insert`: the key is at the index.
abbrev pub is_at : ℕ → ℤ → List ℤ → Bool
is_at idx key keys = ltb idx (length keys) && eqb_ℤ (get_or keys idx (pos 0)) key

pub put_row-found :
    (key value : ℤ) (rows : List Row)
    → is_at (lower_bound (row_keys rows) key) key (row_keys rows) ≡ true
    → (row_keys (put_row key value rows) ≡ row_keys rows)
      × (row_values (put_row key value rows)
          ≡ set (row_values rows) (lower_bound (row_keys rows) key) value)
      × (length (put_row key value rows) ≡ length rows)
unfolding lower_bound
put_row-found key value [] e = absurd (ground arith)
put_row-found key value ((k, v) ∷ rows) e = ground (arith, put_row-found key value rows)

pub put_row-absent :
    (key value : ℤ) (rows : List Row)
    → is_at (lower_bound (row_keys rows) key) key (row_keys rows) ≡ false
    → (row_keys (put_row key value rows)
        ≡ insert_at (lower_bound (row_keys rows) key) key (row_keys rows))
      × (row_values (put_row key value rows)
          ≡ insert_at (lower_bound (row_keys rows) key) value (row_values rows))
      × (length (put_row key value rows) ≡ 1 + length rows)
unfolding lower_bound
put_row-absent key value [] e = (refl, refl, refl)
put_row-absent key value ((k, v) ∷ rows) e = ground (arith, put_row-absent key value rows)

put_row-All :
    (Q : Row → Type 0) (key value : ℤ) (rows : List Row)
    → ((v : ℤ) (k : ℤ) → Q (k, v) → Q (k, value))
    → Q (key, value)
    → All Q rows
    → All Q (put_row key value rows)
put_row-All Q key value [] f q h = (q, tt)
put_row-All Q key value ((k, v) ∷ rows) f q h =
    ground (arith, put_row-All Q key value rows f q h.1, f v k h.0)

pub All-of_map :
    {A B : Type 0} (P : B → Type 0) (f : A → B) (xs : List A)
    → All P (map f xs)
    → All (λ x. P (f x)) xs
All-of_map P f [] h = tt
All-of_map P f (x ∷ xs) h = (h.0, All-of_map P f xs h.1)

pub All-to_map :
    {A B : Type 0} (P : B → Type 0) (f : A → B) (xs : List A)
    → All (λ x. P (f x)) xs
    → All P (map f xs)
All-to_map P f [] h = tt
All-to_map P f (x ∷ xs) h = (h.0, All-to_map P f xs h.1)

pub put_row-keys :
    (P : ℤ → Type 0) (key value : ℤ) (rows : List Row)
    → P key
    → All P (row_keys rows)
    → All P (row_keys (put_row key value rows))
put_row-keys P key value rows p h =
    All-to_map P (λ r. r.0) _
      (put_row-All (λ r. P r.0) key value rows (λ v k q. q) p (All-of_map P (λ r. r.0) rows h))

pub put_row-values :
    (P : ℤ → Type 0) (key value : ℤ) (rows : List Row)
    → P value
    → All P (row_values rows)
    → All P (row_values (put_row key value rows))
put_row-values P key value rows p h =
    All-to_map P (λ r. r.1) _
      (put_row-All (λ r. P r.1) key value rows (λ v k q. p) p (All-of_map P (λ r. r.1) rows h))

pub put_row-above :
    (lo : Option ℤ) (key value : ℤ) (rows : List Row)
    → IsAbove lo key
    → All (λ r. IsAbove lo r.0) rows
    → All (λ r. IsAbove lo r.0) (put_row key value rows)
put_row-above lo key value rows a h =
    put_row-All (λ r. IsAbove lo r.0) key value rows (λ v k q. q) a h

all_above :
    (j k : ℤ) (rows : List Row) → j ≤ℤ k → All (λ r. k <ℤ r.0) rows → All (λ r. j <ℤ r.0) rows
all_above j k [] l h = tt
all_above j k (r ∷ rows) l h = (omega (arith, h.0), all_above j k rows l h.1)

pub put_row-AreRising :
    (hi : Option ℤ) (key value : ℤ) (rows : List Row)
    → IsBelow hi key
    → AreRising hi rows
    → AreRising hi (put_row key value rows)
put_row-AreRising hi key value [] b r = (tt, b, tt)
put_row-AreRising hi key value ((k, v) ∷ rows) b (l, c, r) = elim (Bool-cases (ltb_ℤ key k)) [
  | inl low ↦ rw low (((ground arith), all_above key k rows (ground arith) l), b, (l, c, r))
  | inr high ↦ rw high (elim (Bool-cases (ltb_ℤ k key)) [
    | inl less ↦ rw less (
      put_row-All (λ r. k <ℤ r.0) key value rows (λ v k q. q) (ground arith) l,
      c,
      put_row-AreRising hi key value rows b r,
    )
    | inr same ↦ rw same (l, c, r)
  ])
]
