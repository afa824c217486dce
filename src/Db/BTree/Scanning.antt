-- ===== src/Db/BTree/Scanning.antt =====
-- `scan` of demo-db/src/btree.cpp: the leftmost leaf, and then the list of the leaves.
use c_book.Prelude.{
  ℕ, zero, suc, ◌+◌, ◌<◌, ◌≤◌, ◌≡◌, refl, sym, ap, subst, List, [], ◌∷◌, ◌++◌, append_assoc,
  append-nil, map, All, All-map, arith, ◌-◌,
}
use c_book.Prelude.Int.{ℤ}
use c_book.Db.Wal.{Row}
use c_book.Db.PageStore.{PageStore}
use c_book.Db.BTree.Layout.{NodeData}
use c_book.Db.BTree.Shape.{
  Tree, page_of, node_of, rows_in, behind, IsStored, first_page, Linked, IsLinked, leaves_in,
  leaves_behind,
}
use c_book.Db.BTree.{BPlusTree, read_node, leftmost_loop, scan_loop, scan, rows_of}
use c_book.Db.BTree.Reading.{
  Same, Same-refl, Same-trans, HoldsIn, Returns, continued, after, IsStoredIn, read_node-Holds,
}
use c_book.Db.BTree.Finding.{Represents}

module _ (P : PageStore) where
  leftmost_loop-Returns :
      (h rounds : ℕ) (u : Tree h) (t : BPlusTree P)
      → P.IsReady t.pm
      → IsStoredIn P t h u
      → h < rounds
      → Returns P (leftmost_loop P rounds (page_of h u)) (first_page h u) t
  unfolding leftmost_loop
  leftmost_loop-Returns h zero u t ready stored enough = absurd (omega arith)
  leftmost_loop-Returns zero (suc rounds) u t ready stored enough =
      continued P (read_node P u.page) _ (node_of zero u) _ t
        (read_node-Holds P u.page (node_of zero u) t ready stored)
        (λ t' same. (t', refl, Same-refl P t' same.ready))
  leftmost_loop-Returns (suc h) (suc rounds) (page, (first, rest)) t ready (here, one, others)
        enough =
      continued P (read_node P page) _ (node_of (suc h) (page, (first, rest))) _ t
        (read_node-Holds P page (node_of (suc h) (page, (first, rest))) t ready here)
        (λ t' same.
          leftmost_loop-Returns h rounds first t' same.ready
            (after P (λ c v. IsStored c v h first) t t' same one) (omega arith))

  rows_of_lem : (rows : List Row) → rows_of (map (λ r. r.0) rows) (map (λ r. r.1) rows) ≡ rows
  unfolding rows_of
  rows_of_lem [] = refl
  rows_of_lem ((k, v) ∷ rows) = ap (λ l. (k, v) ∷ l) (rows_of_lem rows)

  -- What the loop gives from a page on, in every state with the same pages.
  abbrev Gives : ℕ → ℕ → List Row → BPlusTree P → Type 0
  Gives rounds pid rows t =
      (t' : BPlusTree P) → Same P t t' → Returns P (scan_loop P rounds pid) rows t'

  Gives-Same :
      (rounds pid : ℕ) (rows : List Row) (t t' : BPlusTree P)
      → Same P t t'
      → Gives rounds pid rows t
      → Gives rounds pid rows t'
  Gives-Same rounds pid rows t t' same g t'' s = g t'' (Same-trans P t t' t'' same s)

  scan_round :
      (pid rounds : ℕ) (n : NodeData) (rows : List Row) (t : BPlusTree P)
      → P.IsReady t.pm
      → HoldsIn P t pid n
      → Gives rounds n.next_leaf rows t
      → Returns P (scan_loop P (suc rounds) pid) (rows_of n.keys n.values ++ rows) t
  unfolding scan_loop
  scan_round zero rounds n rows t ready (low, decoded, node, above) g = absurd (omega arith)
  scan_round (suc pid) rounds n rows t ready here g =
      continued P (read_node P (suc pid)) _ n _ t (read_node-Holds P (suc pid) n t ready here)
        (λ t1 s1.
          continued P (scan_loop P rounds n.next_leaf) _ rows _ t1 (g t1 s1)
            (λ t2 s2. (t2, refl, Same-refl P t2 s2.ready)))

  regive :
      (r r' pid : ℕ) (rows rows' : List Row) (t : BPlusTree P)
      → r ≡ r'
      → rows ≡ rows'
      → Gives r pid rows t
      → Gives r' pid rows' t
  regive r r' pid rows rows' t e f g =
      subst (λ n. Gives n pid rows' t) e (subst (λ l. Gives r pid l t) f g)

  -- From the first leaf of a tree on: its rows, and then what comes behind it.
  abbrev Scans : (h : ℕ) → Tree h → BPlusTree P → Type 0
  Scans h u t =
      (rounds a : ℕ) (rows : List Row)
      → IsLinked a h u
      → Gives rounds a rows t
      → Gives (leaves_in h u + rounds) (first_page h u) (rows_in h u ++ rows) t

  scan_chain :
      (h : ℕ) (u : Tree h) (cs : List (ℤ × Tree h)) (t : BPlusTree P)
      → Scans h u t
      → All (λ c. Scans h c.1 t) cs
      → (rounds a : ℕ) (rows : List Row) → Linked (λ a t. IsLinked a h t) (first_page h) a u cs
      → Gives rounds a rows t
      → Gives
          (leaves_in h u + leaves_behind (leaves_in h) cs + rounds)
          (first_page h u)
          (rows_in h u ++ behind (rows_in h) cs ++ rows)
          t
  scan_chain h u [] t one others rounds a rows linked g =
      regive _ _ (first_page h u) _ _ t (omega arith)
        (ap (λ l. l ++ rows) (sym (append-nil (rows_in h u)))) (one rounds a rows linked g)
  scan_chain h u ((k, w) ∷ cs) t one others rounds a rows (to_w, linked) g =
      let later = leaves_in h w + leaves_behind (leaves_in h) cs + rounds in
      let l = rows_in h w ++ behind (rows_in h) cs in
      regive (leaves_in h u + later) _ (first_page h u) (rows_in h u ++ (l ++ rows)) _ t
        (omega arith) (sym (append_assoc (rows_in h u) l rows))
        (one later (first_page h w) (l ++ rows) to_w
          (scan_chain h w cs t others.0 others.1 rounds a rows linked g))

  scan_tree : (h : ℕ) (u : Tree h) (t : BPlusTree P) → IsStoredIn P t h u → Scans h u t
  scan_tree zero u t stored rounds a rows linked g =
      let from_next = subst (λ n. Gives rounds n rows t) (sym linked) g in
      regive (suc rounds) (1 + rounds) u.page _ _ t (omega arith)
        (ap (λ l. l ++ rows) (rows_of_lem u.rows))
        (λ t' same.
          scan_round u.page rounds (node_of zero u) rows t' same.ready
            (after P (λ c v. IsStored c v 0 u) t t' same stored)
            (Gives-Same rounds u.next rows t t' same from_next))
  scan_tree (suc h) (page, (first, rest)) t (here, one, others) rounds a rows linked g =
      scan_chain h first rest t (scan_tree h first t one)
        (All-map (λ c s. scan_tree h c.1 t s) rest others) rounds a rows linked g

-- On a state that represents a tree, with fuel for its levels and for its leaves, `scan` returns, and
-- gives all rows of the tree from left to right; what a client sees of the pages stays.
pub scan-rows_in :
    (P : PageStore) (fuel h : ℕ) (u : Tree h) (t : BPlusTree P)
    → Represents P t h u
    → h < fuel
    → leaves_in h u ≤ fuel
    → Returns P (scan P fuel) (rows_in h u) t
unfolding scan scan_loop
scan-rows_in P fuel h u t r enough chain =
    continued P (leftmost_loop P fuel t.root_page_id) (scan_loop P fuel) (first_page h u) _ t
      (subst (λ q. Returns P (leftmost_loop P fuel q) (first_page h u) t) (sym r.root)
        (leftmost_loop-Returns P h fuel u t r.ready r.stored enough))
      (regive P (leaves_in h u + (fuel - leaves_in h u)) fuel (first_page h u) (rows_in h u ++ [])
        (rows_in h u) t (omega arith) (append-nil (rows_in h u))
        (scan_tree P h u t r.stored (fuel - leaves_in h u) 0 [] r.linked
          (ended (fuel - leaves_in h u))))
  where
    ended : (n : ℕ) → Gives P n 0 [] t
    ended zero t' same = (t', refl, Same-refl P t' same.ready)
    ended (suc n) t' same = (t', refl, Same-refl P t' same.ready)
