-- ===== src/Db/BTree/Lookup.antt =====
-- Where a key is in an ordered tree of demo-db/src/btree.cpp: in the child that `std::upper_bound`
-- chooses, and in the leaf at the index of `std::lower_bound`.
use c_book.Prelude.{
  ℕ, zero, suc, ◌≡◌, refl, ap, ◌∙◌, true, false, List, [], ◌∷◌, ◌++◌, append-nil, map, Option, none,
  some, All, All-append, arith, inl, inr, Bool-cases, get_or, if◌then◌else◌,
}
use c_book.Prelude.Int.{ℤ, ltb_ℤ, ◌≤ℤ◌, ◌<ℤ◌}
use c_book.Db.Wal.{Row}
use c_book.Db.BTree.Search.{eqb_ℤ, found_value, lower_bound, upper_bound}
use c_book.Db.BTree.Shape.{
  Tree, page_of, children_of, rows_in, behind, value_at, IsAbove, IsBelow, AreRising, Chained,
  IsOrdered, select,
}

pub select_page :
    (h : ℕ) (key : ℤ) (first : Tree h) (rest : List (ℤ × Tree h))
    → get_or (page_of h first ∷ children_of h rest) (upper_bound (map (λ c. c.0) rest) key) 0
      ≡ page_of h (select key first rest)
unfolding upper_bound
select_page h key first [] = refl
select_page h key first ((k, u) ∷ cs) = elim (Bool-cases (ltb_ℤ key k)) [
  | inl low ↦ rw low refl
  | inr high ↦ rw high (select_page h key u cs)
]

-- A key that no row has.
abbrev IsAbsent : ℤ → List Row → Type 0
IsAbsent key rows = All (λ r. eqb_ℤ r.0 key ≡ false) rows

value_at-left :
    (key : ℤ) (xs ys : List Row) → IsAbsent key ys → value_at key (xs ++ ys) ≡ value_at key xs
value_at-left key [] [] h = refl
value_at-left key [] ((k, v) ∷ ys) h = ground (arith, value_at-left key [] ys h.1)
value_at-left key ((k, v) ∷ xs) ys h =
    ap (λ o. if eqb_ℤ k key then some v else o) (value_at-left key xs ys h)

value_at-right :
    (key : ℤ) (xs ys : List Row) → IsAbsent key xs → value_at key (xs ++ ys) ≡ value_at key ys
value_at-right key [] ys h = refl
value_at-right key ((k, v) ∷ xs) ys h = ground (arith, value_at-right key xs ys h.1)

-- Rows between two bounds.
abbrev pub AreWithin : Option ℤ → Option ℤ → List Row → Type 0
AreWithin lo hi rows = All (λ r. IsAbove lo r.0 × IsBelow hi r.0) rows

within_mono :
    (lo hi lo' hi' : Option ℤ) (rows : List Row)
    → ((k : ℤ) → IsAbove lo k → IsAbove lo' k)
    → ((k : ℤ) → IsBelow hi k → IsBelow hi' k)
    → AreWithin lo hi rows
    → AreWithin lo' hi' rows
within_mono lo hi lo' hi' [] a b h = tt
within_mono lo hi lo' hi' (r ∷ rows) a b h =
    ((a r.0 h.0.0, b r.0 h.0.1), within_mono lo hi lo' hi' rows a b h.1)

IsAbove-trans : (lo : Option ℤ) (k x : ℤ) → IsAbove lo k → k ≤ℤ x → IsAbove lo x
IsAbove-trans none k x h l = tt
IsAbove-trans (some b) k x h l = omega arith

pub IsBelow-trans : (hi : Option ℤ) (k x : ℤ) → IsBelow hi k → x <ℤ k → IsBelow hi x
IsBelow-trans none k x h l = tt
IsBelow-trans (some b) k x h l = omega arith

rising-within :
    (lo hi : Option ℤ) (rows : List Row)
    → AreRising hi rows
    → All (λ r. IsAbove lo r.0) rows
    → AreWithin lo hi rows
rising-within lo hi [] r a = tt
rising-within lo hi ((k, v) ∷ rows) r a = ((a.0, r.1), rising-within lo hi rows r.2 a.1)

module _ {T : Type 0} (rows : T → List Row) (P : Option ℤ → Option ℤ → T → Type 0)
    (within : (lo hi : Option ℤ) (t : T) → P lo hi t → AreWithin lo hi (rows t)) where
  pub Chained-within :
      (lo hi : Option ℤ) (t : T) (cs : List (ℤ × T))
      → Chained P lo hi t cs
      → AreWithin lo hi (rows t ++ behind rows cs)
  Chained-within lo hi t [] h = All-append _ (rows t) [] (within lo hi t h) tt
  Chained-within lo hi t ((k, u) ∷ cs) (p, a, b, c) =
      All-append _ (rows t) _
        (within_mono lo (some k) lo hi (rows t) (λ x y. y) (λ x y. IsBelow-trans hi k x b y)
          (within lo (some k) t p))
        (within_mono (some k) hi lo hi (rows u ++ behind rows cs) (λ x y. IsAbove-trans lo k x a y)
          (λ x y. y) (Chained-within (some k) hi u cs c))

  -- Only the chosen child can have the key.
  pub select_value :
      (lo hi : Option ℤ) (key : ℤ) (t : T) (cs : List (ℤ × T))
      → Chained P lo hi t cs
      → value_at key (rows t ++ behind rows cs) ≡ value_at key (rows (select key t cs))
  select_value lo hi key t [] h = ap (value_at key) (append-nil (rows t))
  select_value lo hi key t ((k, u) ∷ cs) (p, a, b, c) = elim (Bool-cases (ltb_ℤ key k)) [
    | inl low ↦ rw low (
        value_at-left key (rows t) _
          (later (rows u ++ behind rows cs) low (Chained-within (some k) hi u cs c)))
    | inr high ↦ rw high (
        value_at-right key (rows t) _ (earlier (rows t) high (within lo (some k) t p))
        ∙ select_value (some k) hi key u cs c)
  ]
    where
      later : (l : List Row) → ltb_ℤ key k ≡ true → AreWithin (some k) hi l → IsAbsent key l
      later [] low h = tt
      later (r ∷ l) low h = (ground arith, later l low h.1)

      earlier : (l : List Row) → ltb_ℤ key k ≡ false → AreWithin lo (some k) l → IsAbsent key l
      earlier [] high h = tt
      earlier (r ∷ l) high h = (ground arith, earlier l high h.1)

  pub select_ordered :
      (lo hi : Option ℤ) (key : ℤ) (t : T) (cs : List (ℤ × T))
      → Chained P lo hi t cs
      → (l : Option ℤ) × (u : Option ℤ) × P l u (select key t cs)
  select_ordered lo hi key t [] h = (lo, hi, h)
  select_ordered lo hi key t ((k, u) ∷ cs) (p, a, b, c) = elim (Bool-cases (ltb_ℤ key k)) [
    | inl low ↦ (lo, some k, rw low p)
    | inr high ↦ let (l, m, q) = select_ordered (some k) hi key u cs c in (l, m, rw high q)
  ]

pub ordered-within :
    (lo hi : Option ℤ) (h : ℕ) (t : Tree h) → IsOrdered lo hi h t → AreWithin lo hi (rows_in h t)
ordered-within lo hi zero t (r, a) = rising-within lo hi t.rows r a
ordered-within lo hi (suc h) (page, (first, rest)) o =
    Chained-within (rows_in h) (λ l u t. IsOrdered l u h t) (λ l u t. ordered-within l u h t) lo hi
      first rest o

none_later :
    (k key : ℤ) (rows : List Row)
    → All (λ r. k <ℤ r.0) rows
    → ltb_ℤ k key ≡ false
    → value_at key rows ≡ none
none_later k key [] h high = refl
none_later k key (r ∷ rows) h high = ground (arith, none_later k key rows h.1 high)

-- What `find` makes of the leaf.
pub found_value-value_at :
    (hi : Option ℤ) (key : ℤ) (rows : List Row)
    → AreRising hi rows
    → found_value (map (λ r. r.0) rows) (map (λ r. r.1) rows) key ≡ value_at key rows
unfolding found_value lower_bound
found_value-value_at hi key [] r = refl
found_value-value_at hi key ((k, v) ∷ rows) (l, b, r) =
    ground (arith, found_value-value_at hi key rows r, none_later k key rows l)
