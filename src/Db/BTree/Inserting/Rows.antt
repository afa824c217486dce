-- ===== src/Db/BTree/Inserting/Rows.antt =====
-- What an insertion into demo-db/src/btree.cpp means for the rows, and what replacing a child by its
-- halves does to the rows, the keys and the pages of a node.
use c_book.Prelude.{
  ℕ, ◌+◌, ◌≡◌, refl, sym, ap, ap₂, ◌∙◌, true, false, List, [], ◌∷◌, ◌++◌, map, append_assoc, Option,
  none, some, All, append-nil, length, arith, inl, inr, Bool-cases, if◌then◌else◌,
}
use c_book.Prelude.Int.{ℤ, ltb_ℤ, ◌≤ℤ◌, ◌<ℤ◌}
use c_book.Db.Wal.{Row}
use c_book.Db.BTree.Search.{upper_bound, insert_at}
use c_book.Db.BTree.Shape.{IsAbove, IsBelow, select, behind, Chained}
use c_book.Db.BTree.Lookup.{AreWithin, Chained-within}
use c_book.Db.BTree.Inserting.Chains.{IsOver-IsAbove, splice, start-splice, low_at, high_at, Chain}

-- The rows with a row put in at its place, or with the value changed where the key is there.
abbrev pub put_row : ℤ → ℤ → List Row → List Row
put_row key value [] = (key, value) ∷ []
put_row key value ((k, v) ∷ rows) =
    let rest = put_row key value rows in
    if ltb_ℤ key k
    then (key, value) ∷ (k, v) ∷ rows
    else if ltb_ℤ k key
    then (k, v) ∷ rest
    else (k, value) ∷ rows

put_row-left :
    (key value : ℤ) (xs ys : List Row)
    → All (λ r. key <ℤ r.0) ys
    → put_row key value (xs ++ ys) ≡ put_row key value xs ++ ys
put_row-left key value [] [] h = refl
put_row-left key value [] ((k, v) ∷ ys) h = ground arith
put_row-left key value ((k, v) ∷ xs) ys h = ground (arith, put_row-left key value xs ys h)

put_row-right :
    (key value : ℤ) (xs ys : List Row)
    → All (λ r. r.0 <ℤ key) xs
    → put_row key value (xs ++ ys) ≡ xs ++ put_row key value ys
put_row-right key value [] ys h = refl
put_row-right key value ((k, v) ∷ xs) ys h = ground (arith, put_row-right key value xs ys h.1)

within-later :
    (key k : ℤ) (hi : Option ℤ) (rows : List Row)
    → ltb_ℤ key k ≡ true
    → AreWithin (some k) hi rows
    → All (λ r. key <ℤ r.0) rows
within-later key k hi [] low w = tt
within-later key k hi (r ∷ rows) low w = (ground arith, within-later key k hi rows low w.1)

within-earlier :
    (key k : ℤ) (lo : Option ℤ) (rows : List Row)
    → ltb_ℤ key k ≡ false
    → AreWithin lo (some k) rows
    → All (λ r. r.0 <ℤ key) rows
within-earlier key k lo [] high w = tt
within-earlier key k lo (r ∷ rows) high w = (ground arith, within-earlier key k lo rows high w.1)

lt-true : (a b : ℤ) → a <ℤ b → ltb_ℤ a b ≡ true
lt-true a b h = ground arith

le-false : (a b : ℤ) → b ≤ℤ a → ltb_ℤ a b ≡ false
le-false a b h = ground arith

behind-append :
    {T : Type 0} (rows : T → List Row) (cs ds : List (ℤ × T))
    → behind rows (cs ++ ds) ≡ behind rows cs ++ behind rows ds
behind-append rows [] ds = refl
behind-append rows ((k, t) ∷ cs) ds =
    ap (λ l. rows t ++ l) (behind-append rows cs ds)
    ∙ sym (append_assoc (rows t) (behind rows cs) (behind rows ds))

-- The rows of a node that is split.
pub rows_split :
    {T : Type 0} (rows : T → List Row) (k : ℤ) (t u : T) (cs ds : List (ℤ × T))
    → (rows t ++ behind rows cs) ++ ((rows u ++ behind rows ds) ++ [])
      ≡ rows t ++ behind rows (cs ++ (k, u) ∷ ds)
rows_split rows k t u cs ds =
    ap (λ l. (rows t ++ behind rows cs) ++ l) (append-nil (rows u ++ behind rows ds))
    ∙ append_assoc (rows t) (behind rows cs) (rows u ++ behind rows ds)
    ∙ ap (λ l. rows t ++ l) (sym (behind-append rows cs ((k, u) ∷ ds)))

module _ {T : Type 0} (rows : T → List Row) (P : Option ℤ → Option ℤ → T → Type 0)
    (within : (lo hi : Option ℤ) (t : T) → P lo hi t → AreWithin lo hi (rows t)) where
  pub rows-splice :
      (key value : ℤ) (lo hi : Option ℤ) (l t : T) (more cs : List (ℤ × T))
      → Chained P lo hi t cs
      → rows l ++ behind rows more ≡ put_row key value (rows (select key t cs))
      → rows (splice key l more t cs).0 ++ behind rows (splice key l more t cs).1
        ≡ put_row key value (rows t ++ behind rows cs)
  rows-splice key value lo hi l t more [] c =
      λ e. e ∙ ap (put_row key value) (sym (append-nil (rows t)))
  rows-splice key value lo hi l t more ((k, u) ∷ cs) (p, a, b, c) =
      elim (Bool-cases (ltb_ℤ key k)) [
        | inl low ↦ rw low (λ e.
            ap (λ m. rows l ++ m) (behind-append rows more ((k, u) ∷ cs))
            ∙ sym (append_assoc (rows l) (behind rows more) (rows u ++ behind rows cs))
            ∙ ap (λ m. m ++ (rows u ++ behind rows cs)) e
            ∙ sym (
                put_row-left key value (rows t) (rows u ++ behind rows cs)
                  (within-later key k hi _ low (Chained-within rows P within (some k) hi u cs c))))
        | inr high ↦ rw high (λ e.
            ap (λ m. rows t ++ m) (rows-splice key value (some k) hi l u more cs c e)
            ∙ sym (
                put_row-right key value (rows t) (rows u ++ behind rows cs)
                  (within-earlier key k lo (rows t) high (within lo (some k) t p))))
      ]

module _ {T : Type 0} where
  abbrev pub keys_of : List (ℤ × T) → List ℤ
  keys_of cs = map (λ c. c.0) cs

  pub length-splice :
      (key : ℤ) (l t : T) (more cs : List (ℤ × T))
      → length (splice key l more t cs).1 ≡ length more + length cs
  length-splice key l t more [] = omega arith
  length-splice key l t more ((k, u) ∷ cs) = elim (Bool-cases (ltb_ℤ key k)) [
    | inl low ↦ rw low (length-more more ((k, u) ∷ cs))
    | inr high ↦ rw high (omega (arith, length-splice key l u more cs))
  ]
    where
      length-more : (xs ys : List (ℤ × T)) → length (xs ++ ys) ≡ length xs + length ys
      length-more [] ys = omega arith
      length-more (x ∷ xs) ys = omega (arith, length-more xs ys)

  pub keys-splice_same :
      (key : ℤ) (l t : T) (cs : List (ℤ × T)) → keys_of (splice key l [] t cs).1 ≡ keys_of cs
  keys-splice_same key l t [] = refl
  keys-splice_same key l t ((k, u) ∷ cs) = elim (Bool-cases (ltb_ℤ key k)) [
    | inl low ↦ rw low refl
    | inr high ↦ rw high (ap (λ m. k ∷ m) (keys-splice_same key l u cs))
  ]

  pub pages-splice_same :
      (page : T → ℕ) (key : ℤ) (l t : T) (cs : List (ℤ × T))
      → page l ≡ page (select key t cs)
      → map (λ c. page c.1) (splice key l [] t cs).1 ≡ map (λ c. page c.1) cs
  pages-splice_same page key l t [] = λ e. refl
  pages-splice_same page key l t ((k, u) ∷ cs) = elim (Bool-cases (ltb_ℤ key k)) [
    | inl low ↦ rw low (λ e. refl)
    | inr high ↦ rw high (λ e.
        ap₂ (λ n m. n ∷ m) (start-splice page (λ v q. Unit) key l u [] cs e)
          (pages-splice_same page key l u cs e))
  ]

  module _ (start : T → ℕ) (has : T → ℕ → Type 0) (Q : Option ℤ → Option ℤ → ℕ → T → Type 0) where
    low_at-above :
        (key x : ℤ) (lo hi : Option ℤ) (after : ℕ) (t : T) (cs : List (ℤ × T))
        → Chain start has Q lo hi after t cs
        → IsAbove (low_at key lo cs) x
        → IsAbove lo x
    low_at-above key x lo hi after t [] c = λ a. a
    low_at-above key x lo hi after t ((k, u) ∷ cs) (p, a, b, away, c) =
        elim (Bool-cases (ltb_ℤ key k)) [
          | inl low ↦ rw low (λ i. i)
          | inr high ↦ rw high (λ i.
              above lo (IsOver-IsAbove lo k a) (low_at-above key x (some k) hi after u cs c i))
        ]
      where
        above : (lo : Option ℤ) → IsAbove lo k → k ≤ℤ x → IsAbove lo x
        above none i j = tt
        above (some b) i j = omega arith

    -- The separator and the right half go where the code inserts them.
    pub keys-splice :
        (key sep : ℤ) (lo hi : Option ℤ) (after : ℕ) (l r t : T) (cs : List (ℤ × T))
        → Chain start has Q lo hi after t cs
        → IsAbove (low_at key lo cs) sep
        → IsBelow (high_at key hi cs) sep
        → keys_of (splice key l ((sep, r) ∷ []) t cs).1
          ≡ insert_at (upper_bound (keys_of cs) sep) sep (keys_of cs)
    unfolding upper_bound
    keys-splice key sep lo hi after l r t [] c = λ a b. refl
    keys-splice key sep lo hi after l r t ((k, u) ∷ cs) (p, a, b, away, c) =
        elim (Bool-cases (ltb_ℤ key k)) [
          | inl low ↦ rw low (λ x y. rw (lt-true sep k y) refl)
          | inr high ↦ rw high (λ x y.
              rw (le-false sep k (low_at-above key sep (some k) hi after u cs c x))
                (ap (λ m. k ∷ m) (keys-splice key sep (some k) hi after l r u cs c x y)))
        ]

    pub pages-splice :
        (page : T → ℕ) (key sep : ℤ) (lo hi : Option ℤ) (after : ℕ) (l r t : T) (cs : List (ℤ × T))
        → Chain start has Q lo hi after t cs
        → IsAbove (low_at key lo cs) sep
        → IsBelow (high_at key hi cs) sep
        → page l ≡ page (select key t cs)
        → map (λ c. page c.1) (splice key l ((sep, r) ∷ []) t cs).1
          ≡ insert_at (upper_bound (keys_of cs) sep) (page r) (map (λ c. page c.1) cs)
    unfolding upper_bound
    pages-splice page key sep lo hi after l r t [] c = λ a b e. refl
    pages-splice page key sep lo hi after l r t ((k, u) ∷ cs) (p, a, b, away, c) =
        elim (Bool-cases (ltb_ℤ key k)) [
          | inl low ↦ rw low (λ x y e. rw (lt-true sep k y) refl)
          | inr high ↦ rw high (λ x y e.
              rw (le-false sep k (low_at-above key sep (some k) hi after u cs c x)) (
                ap₂ (λ n m. n ∷ m) (start-splice page has key l u ((sep, r) ∷ []) cs e)
                  (pages-splice page key sep (some k) hi after l r u cs c x y e)))
        ]
