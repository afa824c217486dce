-- ===== src/Db/BTree/Shape.antt =====
-- The trees that the pages of demo-db/src/btree.cpp stand for: their shape by height, the node of
-- each page, and the order of the keys.
use c_book.Prelude.{
  ℕ, zero, suc, ◌+◌, ◌<◌, ◌≡◌, List, [], ◌∷◌, ◌++◌, map, Option, none, some, All, if◌then◌else◌,
  Bool-cases, inl, inr,
}
use c_book.Prelude.Int.{ℤ, ltb_ℤ, ◌≤ℤ◌, ◌<ℤ◌}
use c_book.Db.Wal.{Row}
use c_book.Db.PageManager.{Page}
use c_book.Db.BTree.Layout.{NodeData, leaf, internal, decode_node}
use c_book.Db.BTree.Search.{eqb_ℤ}
use c_book.Db.BTree.Decode.{IsNode}

pub record Leaf : Type 0 where
  pub page : ℕ
  pub rows : List Row
  pub next : ℕ

-- A tree over `h` levels of internal nodes: such a node is its page, its first child, and the
-- other children, each behind its separator.
abbrev pub Tree : ℕ → Type 0
Tree zero = Leaf
Tree (suc h) = ℕ × (Tree h × List (ℤ × Tree h))

abbrev pub page_of : (h : ℕ) → Tree h → ℕ
page_of zero t = t.page
page_of (suc h) t = t.0

abbrev pub children_of : (h : ℕ) → List (ℤ × Tree h) → List ℕ
children_of h cs = map (λ c. page_of h c.1) cs

-- The node in a tree's page.
abbrev pub node_of : (h : ℕ) → Tree h → NodeData
node_of zero t = record {
  type = leaf;
  keys = map (λ r. r.0) t.rows;
  values = map (λ r. r.1) t.rows;
  children = [];
  next_leaf = t.next;
}
node_of (suc h) (page, (first, rest)) = record {
  type = internal;
  keys = map (λ c. c.0) rest;
  values = [];
  children = page_of h first ∷ children_of h rest;
  next_leaf = 0;
}

abbrev pub behind : {T : Type 0} → (T → List Row) → List (ℤ × T) → List Row
behind rows [] = []
behind rows ((k, t) ∷ cs) = rows t ++ behind rows cs

-- The rows of the leaves, from left to right.
abbrev pub rows_in : (h : ℕ) → Tree h → List Row
rows_in zero t = t.rows
rows_in (suc h) (page, (first, rest)) = rows_in h first ++ behind (rows_in h) rest

-- The value of the first row with a key: what a client of the tree sees.
abbrev pub value_at : ℤ → List Row → Option ℤ
value_at key [] = none
value_at key ((k, v) ∷ rows) = if eqb_ℤ k key then some v else value_at key rows

-- A page between the metadata and the page count holds a node.
abbrev pub Holds : ℕ → (ℕ → Page) → ℕ → NodeData → Type 0
Holds count view page n = (page < count) × (decode_node (view page) ≡ n) × IsNode n × (0 < page)

-- Every page of the tree holds its node.
abbrev pub IsStored : ℕ → (ℕ → Page) → (h : ℕ) → Tree h → Type 0
IsStored count view zero t = Holds count view t.page (node_of zero t)
IsStored count view (suc h) (page, (first, rest)) =
    Holds count view page (node_of (suc h) (page, (first, rest)))
    × IsStored count view h first
    × All (λ c. IsStored count view h c.1) rest

-- Bounds on keys, where there is one.
abbrev pub IsAbove : Option ℤ → ℤ → Type 0
IsAbove none k = Unit
IsAbove (some b) k = b ≤ℤ k

abbrev pub IsBelow : Option ℤ → ℤ → Type 0
IsBelow none k = Unit
IsBelow (some b) k = k <ℤ b

-- The keys of a leaf rise, and lie between the bounds.
abbrev pub AreRising : Option ℤ → List Row → Type 0
AreRising hi [] = Unit
AreRising hi ((k, v) ∷ rows) = All (λ r. k <ℤ r.0) rows × IsBelow hi k × AreRising hi rows

-- Children between the separators, each of them over its own interval.
abbrev pub Chained :
    {T : Type 0}
    → (Option ℤ → Option ℤ → T → Type 0)
    → Option ℤ
    → Option ℤ
    → T
    → List (ℤ × T)
    → Type 0
Chained P lo hi t [] = P lo hi t
Chained P lo hi t ((k, u) ∷ cs) =
    P lo (some k) t × IsAbove lo k × IsBelow hi k × Chained P (some k) hi u cs

abbrev pub IsOrdered : Option ℤ → Option ℤ → (h : ℕ) → Tree h → Type 0
IsOrdered lo hi zero t = AreRising hi t.rows × All (λ r. IsAbove lo r.0) t.rows
IsOrdered lo hi (suc h) (page, (first, rest)) =
    Chained (λ l u t. IsOrdered l u h t) lo hi first rest

-- The child over the interval of a key.
abbrev pub select : {T : Type 0} → ℤ → T → List (ℤ × T) → T
select key t [] = t
select key t ((k, u) ∷ cs) = if ltb_ℤ key k then t else select key u cs

-- The leaf over a key, and the pages of the nodes above it, the last one first, before `path`.
abbrev pub leaf_for : ℤ → (h : ℕ) → Tree h → Leaf
leaf_for key zero t = t
leaf_for key (suc h) (page, (first, rest)) = leaf_for key h (select key first rest)

abbrev pub trail : ℤ → (h : ℕ) → Tree h → List ℕ → List ℕ
trail key zero t path = path
trail key (suc h) (page, (first, rest)) path = trail key h (select key first rest) (page ∷ path)

pub All-select {κ} :
    {T : Type 0} (Q : T → Type κ) (key : ℤ) (t : T) (cs : List (ℤ × T))
    → Q t
    → All (λ c. Q c.1) cs
    → Q (select key t cs)
All-select Q key t [] q h = q
All-select Q key t ((k, u) ∷ cs) q h = elim (Bool-cases (ltb_ℤ key k)) [
  | inl low ↦ rw low q
  | inr high ↦ rw high (All-select Q key u cs h.0 h.1)
]

-- The leaves make a list, each the `next_leaf` of the one before it, up to the page `after`.
abbrev pub first_page : (h : ℕ) → Tree h → ℕ
first_page zero t = t.page
first_page (suc h) (page, (first, rest)) = first_page h first

abbrev pub Linked : {T : Type 0} → (ℕ → T → Type 0) → (T → ℕ) → ℕ → T → List (ℤ × T) → Type 0
Linked P start after t [] = P after t
Linked P start after t ((k, u) ∷ cs) = P (start u) t × Linked P start after u cs

abbrev pub IsLinked : ℕ → (h : ℕ) → Tree h → Type 0
IsLinked after zero t = t.next ≡ after
IsLinked after (suc h) (page, (first, rest)) =
    Linked (λ a t. IsLinked a h t) (first_page h) after first rest

abbrev pub leaves_behind : {T : Type 0} → (T → ℕ) → List (ℤ × T) → ℕ
leaves_behind leaves [] = 0
leaves_behind leaves ((k, t) ∷ cs) = leaves t + leaves_behind leaves cs

abbrev pub leaves_in : (h : ℕ) → Tree h → ℕ
leaves_in zero t = 1
leaves_in (suc h) (page, (first, rest)) = leaves_in h first + leaves_behind (leaves_in h) rest
