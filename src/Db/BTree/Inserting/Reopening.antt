-- ===== src/Db/BTree/Inserting/Reopening.antt =====
-- The constructor of demo-db/src/btree.cpp on the pages that insertions left.
use c_book.Prelude.{ℕ, zero, suc, ◌^◌, ◌<◌, ◌≡◌, List, [], ◌∷◌, Option, none, some, All, ok}
use c_book.Prelude.Int.{ℤ}
use c_book.Db.PageManager.{Page}
use c_book.Db.PageStore.{PageStore}
use c_book.Db.BTree.Shape.{Tree, page_of, first_page, IsStored}
use c_book.Db.BTree.{BPlusTree, open_tree}
use c_book.Db.BTree.Opening.{open_tree-same}
use c_book.Db.BTree.Inserting.Chains.{Chain}
use c_book.Db.BTree.Inserting.Sound.{HasPage, Sound}
use c_book.Db.BTree.Inserting.Roots.{IsTree, IsTree-Represents}

Chain-stored :
    {T : Type 0} (start : T → ℕ) (has : T → ℕ → Type 0)
    (Q Q' : Option ℤ → Option ℤ → ℕ → T → Type 0) (S : T → Type 0) (lo hi : Option ℤ) (after : ℕ)
    (t : T) (cs : List (ℤ × T))
    → ((a b : Option ℤ) (n : ℕ) (v : T) → S v → Q a b n v → Q' a b n v)
    → S t
    → All (λ c. S c.1) cs
    → Chain start has Q lo hi after t cs
    → Chain start has Q' lo hi after t cs
Chain-stored start has Q Q' S lo hi after t [] f s ss c = f lo hi after t s c
Chain-stored start has Q Q' S lo hi after t ((k, u) ∷ cs) f s ss (p, a, b, away, c) = (
  f lo (some k) (start u) t s p,
  a,
  b,
  away,
  Chain-stored start has Q Q' S (some k) hi after u cs f ss.0 ss.1 c,
)

-- The shape of a tree does not depend on where it is stored.
Sound-stored :
    (count count' : ℕ) (view view' : ℕ → Page) (h : ℕ) (lo hi : Option ℤ) (after : ℕ) (u : Tree h)
    → IsStored count' view' h u
    → Sound count view h lo hi after u
    → Sound count' view' h lo hi after u
Sound-stored count count' view view' zero lo hi after u s (here, r, l, n, few) = (s, r, l, n, few)
Sound-stored count count' view view' (suc h) lo hi after (page, (first, rest)) (s, one, others)
      (here, few, away, c) =
    (
      s,
      few,
      away,
      Chain-stored (first_page h) (HasPage h) (Sound count view h) (Sound count' view' h)
          (IsStored count' view' h) lo hi after first rest
          (λ a b n v st so. Sound-stored count count' view view' h a b n v st so) one others c,
    )

pub open_tree-IsTree :
    (P : PageStore) (h : ℕ) (u : Tree h) (t : BPlusTree P)
    → IsTree P t h u
    → page_of h u < 2 ^ 32
    → (t' : BPlusTree P) × (open_tree P t.pm ≡ (ok tt, t'))
      × IsTree P t' h u
      × (P.page_count t'.pm ≡ P.page_count t.pm)
open_tree-IsTree P h u t whole small =
    let (t', e, r, count) = open_tree-same P h u t (IsTree-Represents P t h u whole) small in
    (
      t',
      e,
      record {
        ready = r.ready;
        root = r.root;
        meta = r.meta;
        sound =
            Sound-stored (P.page_count t.pm) (P.page_count t'.pm) (P.view t.pm) (P.view t'.pm) h
              none none 0 u r.stored whole.sound;
      },
      count,
    )
