-- ===== src/Db/BTree/OnPages.antt =====
-- The constructors of demo-db/src/page_manager.cpp and demo-db/src/btree.cpp one after the other, on
-- an empty file.
use c_book.Prelude.{true, ℕ, ◌<◌, ◌≡◌, ap, subst, List, Outcome, ok, throw, arith, inl, inr, []}
use c_book.Db.PageManager.Transfer.{Sys}
use c_book.Db.PageManager.{Page, PageError, PageManager, open_file}
use c_book.Db.PageManager.Allocation.{IsFile, open_file-IsCoherent}
use c_book.Db.PageManager.Success.{IsCalm}
use c_book.Db.PageManager.Store.{page_store}
use c_book.Db.BTree.{open_tree}
use c_book.Db.BTree.Finding.{Represents}
use c_book.Db.BTree.Opening.{no_rows, open_tree-create}

abbrev io_of : Outcome PageError PageManager → List Sys
io_of (ok s) = s.io
io_of (throw e) = []

-- On an empty file, with a cache and with no failing call to come, the page manager opens, and the
-- constructor of the tree leaves pages that represent the tree without rows.
pub open_tree-open_file :
    (cache_size : ℕ) (disk : ℕ → Page) (io : List Sys)
    → IsFile disk 0
    → 0 < cache_size
    → IsCalm io
    → (s : PageManager) × (open_file true true 0 cache_size disk io ≡ ok s)
      × Represents page_store (open_tree page_store s).1 0 no_rows
unfolding open_file
open_tree-open_file cache_size disk io file some_cache calm =
    elim (open_file-IsCoherent true true 0 cache_size disk io file some_cache (omega arith)) [
      | inl (closed, e) ↦ absurd (ground arith)
      | inr (inl (opens, closed, e)) ↦ absurd (ground arith)
      | inr (inr (opens, stat, inl (part, e))) ↦ absurd (part (omega arith))
      | inr (inr (opens, stat, inr (s, e, whole, coherent, seen))) ↦
          let quiet = subst IsCalm (ap io_of e) calm in
          (s, e, (open_tree-create page_store s (coherent, quiet) (omega arith)).0)
    ]
