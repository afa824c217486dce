-- ===== src/Db/BTree/Finding.antt =====
-- `find`, `height` and `scan` of demo-db/src/btree.cpp over a stored, ordered and linked tree.
use c_book.Prelude.{
  ℕ, zero, suc, ◌+◌, ◌<◌, ◌≡◌, refl, sym, ap, ◌∙◌, subst, false, List, [], Option, ok, none, arith,
}
use c_book.Prelude.Int.{ℤ}
use c_book.Db.PageStore.{PageStore}
use c_book.Db.BTree.Shape.{
  Tree, page_of, node_of, rows_in, value_at, Holds, IsStored, IsOrdered, AreRising, select,
  leaf_for, trail, All-select, IsLinked,
}
use c_book.Db.BTree.Lookup.{select_value, select_ordered, ordered-within, found_value-value_at}
use c_book.Db.BTree.{
  metadata, BPlusTree, read_node, find_leaf_loop, find_leaf, find, height_loop, height,
}
use c_book.Db.BTree.Reading.{
  Same-refl, Returns, continued, after, IsStoredIn, read_node-Holds, find_leaf_loop-Returns,
}

-- The tree whose pages a state has: its root, also in page 0, its order and its list of leaves.
pub record Represents (P : PageStore) (t : BPlusTree P) (h : ℕ) (u : Tree h) : Type 0 where
  pub ready : P.IsReady t.pm
  pub root : t.root_page_id ≡ page_of h u
  pub meta : P.view t.pm 0 ≡ metadata (page_of h u)
  pub stored : IsStored (P.page_count t.pm) (P.view t.pm) h u
  pub ordered : IsOrdered none none h u
  pub linked : IsLinked 0 h u

leaf_value :
    (h : ℕ) (lo hi : Option ℤ) (key : ℤ) (u : Tree h)
    → IsOrdered lo hi h u
    → ((m : Option ℤ) × AreRising m (leaf_for key h u).rows)
      × (value_at key (rows_in h u) ≡ value_at key (leaf_for key h u).rows)
leaf_value zero lo hi key u o = ((hi, o.0), refl)
leaf_value (suc h) lo hi key (page, (first, rest)) o =
    let (l, m, q) =
      select_ordered (rows_in h) (λ l u t. IsOrdered l u h t) (λ l u t. ordered-within l u h t) lo
        hi key first rest o in
    let (rising, same) = leaf_value h l m key (select key first rest) q in
    (
      rising,
      select_value (rows_in h) (λ l u t. IsOrdered l u h t) (λ l u t. ordered-within l u h t) lo hi
            key first rest o
          ∙ same,
    )

module _ (P : PageStore) where
  pub leaf_for-Holds :
      (h : ℕ) (key : ℤ) (u : Tree h) (count : ℕ) (view : ℕ → List ℕ)
      → IsStored count view h u
      → Holds count view (leaf_for key h u).page (node_of 0 (leaf_for key h u))
  leaf_for-Holds zero key u count view s = s
  leaf_for-Holds (suc h) key (page, (first, rest)) count view (here, one, others) =
      leaf_for-Holds h key (select key first rest) count view
        (All-select (IsStored count view h) key first rest one others)

  pub find_leaf-Returns :
      (fuel h : ℕ) (u : Tree h) (key : ℤ) (t : BPlusTree P)
      → Represents P t h u
      → h < fuel
      → Returns P (find_leaf P fuel key false) ((leaf_for key h u).page, trail key h u []) t
  unfolding find_leaf
  find_leaf-Returns fuel h u key t r enough =
      subst
        (λ q.
          Returns P (find_leaf_loop P fuel key false q [])
            ((leaf_for key h u).page, trail key h u []) t)
        (sym r.root) (find_leaf_loop-Returns P h fuel u key [] t r.ready r.stored enough)

  height_loop-Returns :
      (h rounds count : ℕ) (u : Tree h) (t : BPlusTree P)
      → P.IsReady t.pm
      → IsStoredIn P t h u
      → h < rounds
      → Returns P (height_loop P rounds count (page_of h u)) (count + h) t
  unfolding height_loop
  height_loop-Returns h zero count u t ready stored enough = absurd (omega arith)
  height_loop-Returns zero (suc rounds) count u t ready stored enough =
      continued P (read_node P u.page) _ (node_of zero u) _ t
        (read_node-Holds P u.page (node_of zero u) t ready stored)
        (λ t' same. (t', ap (λ (n : ℕ). (ok n, t')) (omega arith), Same-refl P t' same.ready))
  height_loop-Returns (suc h) (suc rounds) count (page, (first, rest)) t ready (here, one, others)
        enough =
      continued P (read_node P page) _ (node_of (suc h) (page, (first, rest))) _ t
        (read_node-Holds P page (node_of (suc h) (page, (first, rest))) t ready here)
        (λ t' same.
          let e : count + 1 + h ≡ count + suc h = omega arith in
          subst (λ n. Returns P (height_loop P rounds (count + 1) (page_of h first)) n t') e
            (height_loop-Returns h rounds (count + 1) first t' same.ready
              (after P (λ c v. IsStored c v h first) t t' same one) (omega arith)))

-- On a state that represents an ordered tree, `find` returns, within as many rounds as there are
-- levels, and gives the value that the rows of the tree have under the key; what a client sees of
-- the pages stays.
pub find-value_at :
    (P : PageStore) (fuel h : ℕ) (u : Tree h) (key : ℤ) (t : BPlusTree P)
    → Represents P t h u
    → h < fuel
    → Returns P (find P fuel key) (value_at key (rows_in h u)) t
unfolding find
find-value_at P fuel h u key t r enough =
    let l = leaf_for key h u in
    let ((m, rising), same_value) = leaf_value h none none key u r.ordered in
    continued P (find_leaf P fuel key false) _ (l.page, trail key h u []) _ t
      (find_leaf-Returns P fuel h u key t r enough)
      (λ t1 s1.
        continued P (read_node P l.page) _ (node_of 0 l) _ t1
          (read_node-Holds P l.page (node_of 0 l) t1 s1.ready (
            after P (λ c v. Holds c v l.page (node_of 0 l)) t t1 s1
              (leaf_for-Holds P h key u _ (P.view t.pm) r.stored)))
          (λ t2 s2. (
            t2,
            ap (λ o. (ok o, t2)) (found_value-value_at m key l.rows rising ∙ sym same_value),
            Same-refl P t2 s2.ready,
          )))

-- On a state that represents a tree of `h` levels over its leaves, `height` returns, and gives
-- `h + 1`; what a client sees of the pages stays.
pub height_lem :
    (P : PageStore) (fuel h : ℕ) (u : Tree h) (t : BPlusTree P)
    → Represents P t h u
    → h < fuel
    → Returns P (height P fuel) (1 + h) t
unfolding height
height_lem P fuel h u t r enough =
    subst (λ q. Returns P (height_loop P fuel 1 q) (1 + h) t) (sym r.root)
      (height_loop-Returns P h fuel 1 u t r.ready r.stored enough)
