-- ===== src/Db/BTree/Inserting/Growth.antt =====
-- What inserting a row below a node of demo-db/src/btree.cpp leaves: the tree below has the row, in the
-- same page, and may have a new right half, which the parent is told of.
use c_book.Prelude.{
  ℕ, suc, ◌+◌, ◌<◌, ◌≤◌, ◌≡◌, ◌⊎◌, List, [], ◌∷◌, ◌++◌, Option, All, length, ltb, set, get_or, ◌&&◌,
  if◌then◌else◌,
}
use c_book.Prelude.Int.{ℤ, pos}
use c_book.Db.Wal.Records.{IsInt64}
use c_book.Db.PageStore.{PageStore}
use c_book.Db.BTree.Layout.{NodeData}
use c_book.Db.BTree.Search.{lower_bound, eqb_ℤ}
use c_book.Db.BTree.Shape.{Tree, page_of, first_page, rows_in, behind, leaf_for, trail}
use c_book.Db.BTree.Insertion.{insert_in_parent, store_leaf, with_row}
use c_book.Db.BTree.{BPlusTree, Exec, ◌>>=◌, return, read_node, write_node}
use c_book.Db.BTree.Inserting.Chains.{HasAny, Chain}
use c_book.Db.BTree.Inserting.Sound.{HasPage, Sound}
use c_book.Db.BTree.Inserting.Rows.{put_row}

module _ (P : PageStore) where
  -- `insert` after the descent, and after the leaf was read.
  abbrev pub placed : ℤ → ℤ → ℕ → List ℕ → NodeData → Exec P Unit
  placed key value leaf_pid path n =
      let idx = lower_bound n.keys key in
      if ltb idx (length n.keys) && eqb_ℤ (get_or n.keys idx (pos 0)) key
      then write_node P leaf_pid (record n { values = set n.values idx value })
      else store_leaf P leaf_pid path (with_row idx key value n)

  abbrev pub place : ℤ → ℤ → ℕ × List ℕ → Exec P Unit
  place key value (leaf_pid, path) = read_node P leaf_pid >>= placed key value leaf_pid path

  -- What is left to do above a node: nothing, or its right half goes to the parent.
  abbrev pub finish : List ℕ → (h : ℕ) → List (ℤ × Tree h) → Exec P Unit
  finish path h [] = return tt
  finish path h ((sep, r) ∷ more) = insert_in_parent P path sep (page_of h r)

  -- A tree in the pages of a state, as one child of a node, and as several.
  abbrev pub SoundIn : BPlusTree P → (h : ℕ) → Option ℤ → Option ℤ → ℕ → Tree h → Type 0
  SoundIn t = Sound (P.page_count t.pm) (P.view t.pm)

  abbrev pub ChainIn :
      BPlusTree P → (h : ℕ) → Option ℤ → Option ℤ → ℕ → Tree h → List (ℤ × Tree h) → Type 0
  ChainIn t h = Chain (first_page h) (HasPage h) (SoundIn t h)

  -- The state goes from `t` to `t'`, the tree `u` gives way to `l` and the children `more`.
  pub record Grown (key value : ℤ) (h : ℕ) (lo hi : Option ℤ) (after : ℕ) (u : Tree h)
      (path : List ℕ) (t t' : BPlusTree P) (l : Tree h) (more : List (ℤ × Tree h)) : Type 0 where
    pub ran :
        place key value ((leaf_for key h u).page, trail key h u path) t ≡ finish path h more t'
    pub ready : P.IsReady t'.pm
    pub root : t'.root_page_id ≡ t.root_page_id
    pub grows : P.page_count t.pm ≤ P.page_count t'.pm
    pub bounded : P.page_count t'.pm ≤ P.page_count t.pm + suc h
    pub sound : ChainIn t' h lo hi after l more
    pub page : page_of h l ≡ page_of h u
    pub start : first_page h l ≡ first_page h u
    pub owns :
        (q : ℕ)
        → HasAny (first_page h) (HasPage h) l more q
        → HasPage h u q ⊎ (P.page_count t.pm ≤ q)
    pub stays : (q : ℕ) → q < P.page_count t.pm → (¬ HasPage h u q) → P.view t'.pm q ≡ P.view t.pm q
    pub rows : rows_in h l ++ behind (rows_in h) more ≡ put_row key value (rows_in h u)
    pub separators : All (λ c. IsInt64 c.0) more
    pub single : length more ≤ 1

  abbrev pub Grows :
      ℤ → ℤ → (h : ℕ) → Option ℤ → Option ℤ → ℕ → Tree h → List ℕ → BPlusTree P → Type 0
  Grows key value h lo hi after u path t =
      (t' : BPlusTree P) × (l : Tree h) × (more : List (ℤ × Tree h)) × Grown key value h lo hi after
        u path t t' l more
