-- ===== src/Db/BTree/Inserting/Nodes.antt =====
-- `insert` of demo-db/src/btree.cpp at a node above the leaf: what the insertion into the child means
-- for the node, whose page is written where the child was split.
use c_book.Prelude.{ℕ, suc, ◌<◌, ◌≤◌, ◌≡◌, ◌⊎◌, List, ◌∷◌, ◌++◌, Option, inl, inr}
use c_book.Prelude.Int.{ℤ}
use c_book.Db.PageStore.{PageStore}
use c_book.Db.BTree.Shape.{Tree, first_page, rows_in, behind, select, IsOrdered}
use c_book.Db.BTree.Lookup.{ordered-within}
use c_book.Db.BTree.{BPlusTree}
use c_book.Db.BTree.Inserting.Chains.{
  HasAny, HasAny-select, HasAny-splice, Chain-splice, splice, low_at, high_at, after_at,
  start-splice,
}
use c_book.Db.BTree.Inserting.Sound.{HasPage, HasPage-bounds, Sound-frame, Sound-IsOrdered}
use c_book.Db.BTree.Inserting.Rows.{put_row, rows-splice}
use c_book.Db.BTree.Inserting.Growth.{Grown, SoundIn, ChainIn}

module _ (P : PageStore) (key value : ℤ) (h : ℕ) (lo hi : Option ℤ) (after : ℕ) (page : ℕ)
    (first : Tree h) (rest : List (ℤ × Tree h)) (path : List ℕ) (t t' : BPlusTree P) (l : Tree h)
    (more : List (ℤ × Tree h)) (sound : SoundIn P t (suc h) lo hi after (page, (first, rest)))
    (g : Grown P key value h
      (low_at key lo rest)
      (high_at key hi rest)
      (after_at (first_page h) key after rest)
      (select key first rest)
      (page ∷ path)
      t
      t'
      l
      more) where
  abbrev pub spliced : Tree h × List (ℤ × Tree h)
  spliced = splice key l more first rest

  pub spliced-owns :
      (q : ℕ)
      → HasAny (first_page h) (HasPage h) spliced.0 spliced.1 q
      → HasAny (first_page h) (HasPage h) first rest q ⊎ (P.page_count t.pm ≤ q)
  spliced-owns q m = elim (HasAny-splice (first_page h) (HasPage h) key l first more rest q m) [
    | inl a ↦ elim (g.owns q a) [
      | inl i ↦ inl (HasAny-select (first_page h) (HasPage h) key first rest q i)
      | inr far ↦ inr far
    ]
    | inr b ↦ inl b
  ]

  pub spliced-Chain : ChainIn P t' h lo hi after spliced.0 spliced.1
  spliced-Chain =
      Chain-splice (first_page h) (HasPage h) (SoundIn P t h) (SoundIn P t' h) (P.page_count t.pm)
        key lo hi after l first more rest sound.3 (λ q m. (bounds q (inr m)).1) g.sound g.start
        g.owns
        (λ a b n v away sub s.
          Sound-frame (P.page_count t.pm) (P.page_count t'.pm) (P.view t.pm) (P.view t'.pm) h a b n
            v g.grows (λ q m. g.stays q (bounds q (inr (sub q m))).1 (away q m)) s)
    where
      bounds : (q : ℕ) → HasPage (suc h) (page, (first, rest)) q → (0 < q) × (q < P.page_count t.pm)
      bounds =
          HasPage-bounds (P.page_count t.pm) (P.view t.pm) (suc h) lo hi after (page, (first, rest))
            sound

  pub spliced-rows :
      rows_in h spliced.0 ++ behind (rows_in h) spliced.1
      ≡ put_row key value (rows_in (suc h) (page, (first, rest)))
  spliced-rows =
      rows-splice (rows_in h) (λ a b u. IsOrdered a b h u) (λ a b u. ordered-within a b h u) key
        value lo hi l first more rest
        (Sound-IsOrdered (P.page_count t.pm) (P.view t.pm) (suc h) lo hi after (page, (first, rest))
          sound)
        g.rows

  pub spliced-start : first_page h spliced.0 ≡ first_page h first
  spliced-start = start-splice (first_page h) (HasPage h) key l first more rest g.start
