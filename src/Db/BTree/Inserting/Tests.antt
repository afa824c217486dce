-- ===== src/Db/BTree/Inserting/Tests.antt =====
-- Insertions into small trees, over pages in memory.
use c_book.Prelude.{ℕ, ◌≡◌, refl, [], ◌∷◌, ok, some, arith, inl, inr}
use c_book.Prelude.Int.{pos, negsuc}
use c_book.Db.BTree.{BPlusTree, find, scan}
use c_book.Db.BTree.Shape.{Tree, rows_in}
use c_book.Db.BTree.Insertion.{insert}
use c_book.Db.BTree.Reading.{Returns}
use c_book.Db.BTree.Tests.{memory_store, state, two_leaves, represents}
use c_book.Db.BTree.Inserting.Rows.{put_row}
use c_book.Db.BTree.Inserting.Roots.{IsTree, Inserted, insert-put_row}
use c_book.Db.BTree.Inserting.Clients.{find-insert, insert_all, insert_all-scan}

put_row_middle :
    put_row (pos 5) (pos 50) (rows_in 1 two_leaves)
    ≡ (negsuc 4, pos 10)
      ∷ (pos 2, pos 20)
      ∷ (pos 3, pos 30)
      ∷ (pos 5, pos 50)
      ∷ (pos 8, negsuc 0)
      ∷ []
put_row_middle = refl

put_row_there :
    put_row (pos 2) (pos 21) (rows_in 1 two_leaves)
    ≡ (negsuc 4, pos 10) ∷ (pos 2, pos 21) ∷ (pos 3, pos 30) ∷ (pos 8, negsuc 0) ∷ []
put_row_there = refl

pub two_leaves-IsTree : IsTree memory_store state 1 two_leaves
two_leaves-IsTree =
    let (here, low, high) = represents.stored in
    record {
      ready = tt;
      root = refl;
      meta = refl;
      sound = (
        here,
        omega arith,
        (λ m. elim m [ inl e ↦ omega (arith, e) | inr e ↦ omega (arith, e) ]),
        (
          (
            low,
            ((omega arith, tt), omega arith, (tt, omega arith, tt)),
            (tt, (tt, tt)),
            refl,
            omega arith,
          ),
          tt,
          tt,
          (λ q m n. omega (arith, m, n)),
          (
            high.0,
            ((omega arith, tt), tt, (tt, tt, tt)),
            (omega arith, (omega arith, tt)),
            refl,
            omega arith,
          ),
        ),
      );
    }

insert-put_row_example :
    (t' : BPlusTree memory_store) × (h' : ℕ) × (u' : Tree h') × (insert memory_store 2
        (pos 5)
        (pos 50)
        state
      ≡ (ok tt, t'))
    × Inserted memory_store (pos 5) (pos 50) 1 two_leaves state t' h' u'
insert-put_row_example =
    insert-put_row memory_store 2 1 two_leaves (pos 5) (pos 50) state two_leaves-IsTree
      (omega arith) (omega arith) (omega arith) (omega arith)

find-insert_example :
    (t' : BPlusTree memory_store) × (insert memory_store 3 (pos 5) (pos 50) state ≡ (ok tt, t'))
    × Returns memory_store (find memory_store 3 (pos 5)) (some (pos 50)) t'
find-insert_example =
    find-insert memory_store 3 1 two_leaves (pos 5) (pos 50) state two_leaves-IsTree (omega arith)
      (omega arith) (omega arith) (omega arith)

insert_all-scan_example :
    (t' : BPlusTree memory_store) × (insert_all memory_store 6
        ((pos 6, pos 60) ∷ (pos 5, pos 50) ∷ (pos 6, pos 61) ∷ (pos 7, pos 70) ∷ [])
        state
      ≡ (ok tt, t'))
    × ((rounds : ℕ) × Returns memory_store
          (scan memory_store rounds)
          ((negsuc 4, pos 10)
            ∷ (pos 2, pos 20)
            ∷ (pos 3, pos 30)
            ∷ (pos 5, pos 50)
            ∷ (pos 6, pos 61)
            ∷ (pos 7, pos 70)
            ∷ (pos 8, negsuc 0)
            ∷ [])
          t')
insert_all-scan_example =
    insert_all-scan memory_store 6 1 two_leaves
      ((pos 6, pos 60) ∷ (pos 5, pos 50) ∷ (pos 6, pos 61) ∷ (pos 7, pos 70) ∷ []) state
      two_leaves-IsTree (omega arith) (omega arith)
      (
        (omega arith, omega arith),
        (
          (omega arith, omega arith),
          ((omega arith, omega arith), ((omega arith, omega arith), tt)),
        ),
      )
