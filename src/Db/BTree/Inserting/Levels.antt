-- ===== src/Db/BTree/Inserting/Levels.antt =====
-- `insert` of demo-db/src/btree.cpp below any node: from the leaf of the key up to the node.
use c_book.Prelude.{
  ℕ, zero, suc, ◌+◌, ◌^◌, ◌<◌, List, [], ◌∷◌, Option, length, leb, Bool-cases, inl, inr, arith,
}
use c_book.Prelude.Int.{ℤ}
use c_book.Db.Wal.Records.{IsInt64}
use c_book.Db.PageStore.{PageStore}
use c_book.Db.BTree.Shape.{Tree, first_page, select, IsAbove, IsBelow}
use c_book.Db.BTree.{BPlusTree}
use c_book.Db.BTree.Inserting.Chains.{
  low_at, high_at, after_at, low_at-IsAbove, high_at-IsBelow, splice, Chain-select,
}
use c_book.Db.BTree.Inserting.Sound.{HasPage}
use c_book.Db.BTree.Inserting.Rows.{length-splice}
use c_book.Db.BTree.Inserting.Places.{five_lem}
use c_book.Db.BTree.Inserting.Growth.{Grows, Grown, SoundIn}
use c_book.Db.BTree.Inserting.Leaves.{leaf-Grows}
use c_book.Db.BTree.Inserting.Parents.{kept}
use c_book.Db.BTree.Inserting.Takes.{taken}
use c_book.Db.BTree.Inserting.Shares.{shared}

node-Grows :
    (P : PageStore) (key value : ℤ) (h : ℕ) (lo hi : Option ℤ) (after : ℕ) (page : ℕ)
    (first : Tree h) (rest : List (ℤ × Tree h)) (path : List ℕ) (t t' : BPlusTree P) (l : Tree h)
    (more : List (ℤ × Tree h))
    → SoundIn P t (suc h) lo hi after (page, (first, rest))
    → Grown P key value h
        (low_at key lo rest)
        (high_at key hi rest)
        (after_at (first_page h) key after rest)
        (select key first rest)
        (page ∷ path)
        t
        t'
        l
        more
    → P.page_count t.pm + suc (suc h) < 2 ^ 32
    → Grows P key value (suc h) lo hi after (page, (first, rest)) path t
node-Grows P key value h lo hi after page first rest path t t' l [] sound g small =
    kept P key value h lo hi after page first rest path t t' l sound g
node-Grows P key value h lo hi after page first rest path t t' l ((sep, r) ∷ []) sound g small =
    let r' = (splice key l ((sep, r) ∷ []) first rest).1 in
    let long = length-splice key l first ((sep, r) ∷ []) rest in
    elim (Bool-cases (leb (length r') 4)) [
      | inl fits ↦
          taken P key value h lo hi after page first rest path t t' l sound sep r g (ground arith)
            (omega (arith, g.bounded))
      | inr full ↦
          let (a, b, c, d, x, five) = five_lem r' (ground (arith, long, sound.1)) in
          shared P key value h lo hi after page first rest path t t' l sound sep r g a b c d x five
            small
    ]
node-Grows P key value h lo hi after page first rest path t t' l (c ∷ d ∷ more) sound g small =
    absurd (omega (arith, g.single))

-- An insertion below a node: the tree there takes the row, and at most its right half is left for the
-- parent.
pub tree-Grows :
    (P : PageStore) (key value : ℤ) (h : ℕ) (lo hi : Option ℤ) (after : ℕ) (u : Tree h)
    (path : List ℕ) (t : BPlusTree P)
    → P.IsReady t.pm
    → SoundIn P t h lo hi after u
    → IsAbove lo key
    → IsBelow hi key
    → IsInt64 key
    → IsInt64 value
    → P.page_count t.pm + suc h < 2 ^ 32
    → Grows P key value h lo hi after u path t
tree-Grows P key value zero lo hi after u path t ready sound above below ik iv small =
    leaf-Grows P key value lo hi after u path t ready sound above below ik iv (omega arith)
tree-Grows P key value (suc h) lo hi after (page, (first, rest)) path t ready sound above below ik
      iv small =
    let (t', l, more, g) =
      tree-Grows P key value h (low_at key lo rest) (high_at key hi rest)
        (after_at (first_page h) key after rest) (select key first rest) (page ∷ path) t ready
        (Chain-select (first_page h) (HasPage h) (SoundIn P t h) key lo hi after first rest sound.3)
        (low_at-IsAbove key lo rest above) (high_at-IsBelow key hi rest below) ik iv
        (omega arith) in
    node-Grows P key value h lo hi after page first rest path t t' l more sound g small
