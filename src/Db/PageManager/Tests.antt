-- ===== src/Db/PageManager/Tests.antt =====
-- The page manager of demo-db/src/page_manager.cpp on a file of two pages, with a cache of one entry.
use c_book.Prelude.{
  true, false, ℕ, ◌≡◌, ◌≢◌, refl, [], ◌∷◌, length, arith, ok, throw, replicate, length-replicate,
  true, ◌⊎◌, ◌*◌, ◌%◌,
}
use c_book.Db.PageManager.Cache.{lookup, IsDistinct}
use c_book.Db.PageManager.Transfer.{moved, interrupted, page_size, transfer_loop}
use c_book.Db.PageManager.{
  Page, make_page, PageManager, no_stats, open_file, not_aligned, open_failed, fstat_failed,
  read_page, write_page, allocate_page, sync, evict_one_if_full,
}
use c_book.Db.PageManager.Invariant.{IsCoherent, view, length-make_page}
use c_book.Db.PageManager.Eviction.{Evicts, evict_one-Evicts}
use c_book.Db.PageManager.Reading.{Reads, read_page-Reads}
use c_book.Db.PageManager.Writing.{Writes, write_page-Writes}
use c_book.Db.PageManager.Allocation.{
  Allocates, allocate_page-Allocates, IsFile, open_file-IsCoherent,
}
use c_book.Db.PageManager.Sync.{Syncs, sync-Syncs}

-- Page 0 is cached and not yet written back; one call moves ten bytes, another is interrupted.
abbrev sevens : Page
sevens = 7 ∷ replicate 4095 0

abbrev two_pages : PageManager
two_pages = record {
  page_count = 2;
  cache_size = 1;
  stats = no_stats;
  lru = 0 ∷ [];
  cache = (0, record { page = sevens; dirty = true }) ∷ [];
  disk = λ p. make_page;
  file_pages = 2;
  io = moved 9 ∷ interrupted ∷ [];
}

length-sevens : length sevens ≡ page_size
length-sevens = omega (arith, length-replicate {A = ℕ} 4095 0)

two_pages-IsCoherent : IsCoherent two_pages
unfolding lookup IsDistinct
two_pages-IsCoherent = record {
  sized = λ p e h. ground (arith, length-sevens);
  clean = λ p e h k. ground arith;
  in_file = λ p e h. ground arith;
  disk_sized = λ p. length-make_page;
  past_end = λ p h. refl;
  listed = λ p. ground arith;
  nodup = (refl, tt);
  positive = omega arith;
  bounded = omega arith;
  distinct = (refl, tt);
}

read_page-Reads_example : Reads 1 two_pages (read_page 1 two_pages).0 (read_page 1 two_pages).1
read_page-Reads_example = read_page-Reads 1 two_pages two_pages-IsCoherent

write_page-Writes_example :
    Writes 1 sevens two_pages (write_page 1 sevens two_pages).0 (write_page 1 sevens two_pages).1
write_page-Writes_example = write_page-Writes 1 sevens two_pages two_pages-IsCoherent

allocate_page-Allocates_example :
    Allocates two_pages (allocate_page two_pages).0 (allocate_page two_pages).1
allocate_page-Allocates_example =
    allocate_page-Allocates two_pages two_pages-IsCoherent (omega arith)

sync-Syncs_example : Syncs two_pages (sync two_pages).0 (sync two_pages).1
sync-Syncs_example = sync-Syncs two_pages two_pages-IsCoherent

evict_one-Evicts_example :
    Evicts two_pages (evict_one_if_full two_pages).0 (evict_one_if_full two_pages).1
evict_one-Evicts_example = evict_one-Evicts two_pages two_pages-IsCoherent

abbrev zero_disk : ℕ → Page
zero_disk p = make_page

zero_disk-IsFile : IsFile zero_disk 2
zero_disk-IsFile = record { disk_sized = λ p. length-make_page; past_end = λ p h. refl }

open_file-IsCoherent_example :
    let o = open_file true true 8192 1 zero_disk [] in
    ((true ≡ false) × (o ≡ throw open_failed))
    ⊎ ((true ≡ true) × (true ≡ false) × (o ≡ throw fstat_failed))
    ⊎ ((true ≡ true)
        × (true ≡ true)
        × (((8192 % page_size ≢ 0) × (o ≡ throw not_aligned))
            ⊎ ((s : PageManager) × (o ≡ ok s)
                × (8192 ≡ s.page_count * page_size)
                × IsCoherent s
                × ((p : ℕ) → view s p ≡ zero_disk p))))
open_file-IsCoherent_example =
    open_file-IsCoherent true true 8192 1 zero_disk [] zero_disk-IsFile (omega arith) (omega arith)

loop_done : (transfer_loop (moved 9 ∷ interrupted ∷ []) 0 0).done ≡ true
unfolding transfer_loop
loop_done = refl
