-- ===== src/Db/PageManager/Allocation.antt =====
-- `allocate_page` adds a page of zeros at the end, and the constructor starts coherent.
use c_book.Prelude.{
  Bool, true, false, ℕ, ◌+◌, ◌*◌, ◌/◌, ◌%◌, ◌^◌, ◌≤◌, ◌<◌, ◌≡◌, ◌≢◌, refl, ap, ◌∙◌, true, false,
  List, [], none, Outcome, ok, throw, length, ◌==◌, if◌then◌else◌, arith, inl, inr, ◌⊎◌, Bool-cases,
  Option-cases,
}
use c_book.Db.PageManager.Cache.{
  Entry, lookup, IsDistinct, emplace-IsDistinct, lookup-emplace, length-emplace_le, IsDistinct,
  emplace-IsDistinct,
}
use c_book.Db.PageManager.Transfer.{Sys, page_size}
use c_book.Db.PageManager.{
  Page, make_page, PageError, undefined, PageManager, evict_one_if_full, insert_entry,
  allocate_page, open_file, not_aligned, open_failed, fstat_failed, no_stats, continue,
}
use c_book.Db.PageManager.Invariant.{is_some, IsCoherent, view, length-make_page}
use c_book.Db.PageManager.Eviction.{Evicts, evict_one-Evicts}

-- A call of `allocate_page`. If it returns, its id is the old page count, and a client sees a page
-- of zeros there. If it throws, a client sees every page as before, and yet the page count has grown.
pub record Allocates (s : PageManager) (r : Outcome PageError ℕ) (s' : PageManager) : Type 0 where
  pub coherent : IsCoherent s'
  pub count : s'.page_count ≡ s.page_count + 1
  pub new :
      (id : ℕ)
      → r ≡ ok id
      → (id ≡ s.page_count)
        × ((q : ℕ) → view s' q ≡ (if s.page_count == q then make_page else view s q))
  pub refused : (x : PageError) → r ≡ throw x → (q : ℕ) → view s' q ≡ view s q
  pub defined : r ≢ throw undefined

abbrev zeros : Entry
zeros = record { page = make_page; dirty = true }

insert_zeros-IsCoherent :
    (p : ℕ) (s : PageManager)
    → IsCoherent s
    → lookup p s.cache ≡ none
    → p < s.page_count
    → length s.cache < s.cache_size
    → IsCoherent (insert_entry p zeros s)
unfolding insert_entry
insert_zeros-IsCoherent p s c absent low room = record {
  sized = λ q d h.
      ground (arith, lookup-emplace p q zeros s.cache absent, c.sized q d, length-make_page);
  clean = λ q d h k. ground (arith, lookup-emplace p q zeros s.cache absent, c.clean q d);
  in_file = λ q d h. ground (arith, lookup-emplace p q zeros s.cache absent, c.in_file q d);
  disk_sized = c.disk_sized;
  past_end = c.past_end;
  listed = λ q. ground (arith, lookup-emplace p q zeros s.cache absent, c.listed q);
  nodup = (c.listed p ∙ ap is_some absent, c.nodup);
  positive = c.positive;
  bounded = omega (arith, length-emplace_le p zeros s.cache);
  distinct = emplace-IsDistinct p zeros s.cache c.distinct;
}

view-insert_zeros :
    (p q : ℕ) (s : PageManager)
    → lookup p s.cache ≡ none
    → view (insert_entry p zeros s) q ≡ (if p == q then make_page else view s q)
unfolding insert_entry view
view-insert_zeros p q s absent = ground (arith, lookup-emplace p q zeros s.cache absent)

-- One more page in the file.
abbrev pub grown : PageManager → PageManager
grown s = record s { page_count = (s.page_count + 1) % 2 ^ 32 }

pub grown-IsCoherent :
    (s : PageManager) → IsCoherent s → s.page_count + 1 < 2 ^ 32 → IsCoherent (grown s)
grown-IsCoherent s c h = record {
  sized = c.sized;
  clean = c.clean;
  in_file = λ p e f. omega (arith, c.in_file p e f);
  disk_sized = c.disk_sized;
  past_end = c.past_end;
  listed = c.listed;
  nodup = c.nodup;
  positive = c.positive;
  bounded = c.bounded;
  distinct = c.distinct;
}

view-grown : (s : PageManager) (q : ℕ) → view (grown s) q ≡ view s q
unfolding view
view-grown s q = refl

fresh : (s : PageManager) → IsCoherent s → lookup s.page_count s.cache ≡ none
fresh s c = elim (Option-cases (lookup s.page_count s.cache)) [
  | inl e ↦ e
  | inr (d, e) ↦ absurd (omega (arith, c.in_file s.page_count d e))
]

abbrev add_zeros : ℕ → Unit {0} → PageManager → Outcome PageError ℕ × PageManager
add_zeros id u t = (ok id, insert_entry id zeros t)

insert_zeros-count : (p : ℕ) (s : PageManager) → (insert_entry p zeros s).page_count ≡ s.page_count
unfolding insert_entry
insert_zeros-count p s = refl

after_evict_allocate :
    (s s' : PageManager) (r : Outcome PageError Unit)
    → IsCoherent s
    → s.page_count + 1 < 2 ^ 32
    → Evicts (grown s) r s'
    → Allocates s
        (continue r (add_zeros s.page_count) s').0
        (continue r (add_zeros s.page_count) s').1
after_evict_allocate s s' (throw x) c h v = record {
  coherent = v.keeps.coherent;
  count = omega (arith, v.keeps.count);
  new = λ id e. cc;
  refused = λ y e q. v.keeps.same q ∙ view-grown s q;
  defined = λ e. v.defined (ground arith);
}
after_evict_allocate s s' (ok u) c h v =
    let absent = v.absent s.page_count (fresh s c) in
    record {
      coherent =
          insert_zeros-IsCoherent s.page_count s' v.keeps.coherent absent
            (omega (arith, v.keeps.count)) (v.room refl);
      count = omega (arith, v.keeps.count, insert_zeros-count s.page_count s');
      new = λ id e. (
        cc e,
        λ q.
            view-insert_zeros s.page_count q s' absent
            ∙ ap (λ w. if s.page_count == q then make_page else w)
                (v.keeps.same q ∙ view-grown s q),
      );
      refused = λ y e. cc;
      defined = λ e. cc;
    }

-- `allocate_page` on every branch, from any coherent state with less than 2 ^ 32 - 1 pages. If it
-- returns, its id is the old page count and a client sees zeros there, and all other pages as
-- before. If it throws, a client sees all pages as before, but the page count has grown all the
-- same. The state stays coherent.
pub allocate_page-Allocates :
    (s : PageManager)
    → IsCoherent s
    → s.page_count + 1 < 2 ^ 32
    → Allocates s (allocate_page s).0 (allocate_page s).1
unfolding allocate_page
allocate_page-Allocates s c h =
    after_evict_allocate s (evict_one_if_full (grown s)).1 (evict_one_if_full (grown s)).0 c h
      (evict_one-Evicts (grown s) (grown-IsCoherent s c h))

-- A file of whole pages, whose pages have their size, with nothing past its end.
pub record IsFile (disk : ℕ → Page) (pages : ℕ) : Type 0 where
  pub disk_sized : (p : ℕ) → length (disk p) ≡ page_size
  pub past_end : (p : ℕ) → pages ≤ p → disk p ≡ make_page

-- The manager that the constructor leaves.
abbrev opened : ℕ → ℕ → (ℕ → Page) → List Sys → PageManager
opened size cache_size disk io = record {
  page_count = size / page_size % 2 ^ 32;
  cache_size = cache_size;
  stats = no_stats;
  lru = [];
  cache = [];
  disk = disk;
  file_pages = size / page_size;
  io = io;
}

module _ (size cache_size : ℕ) (disk : ℕ → Page) (io : List Sys) where
  open_file-whole :
      size % page_size == 0 ≡ true
      → open_file true true size cache_size disk io ≡ ok (opened size cache_size disk io)
  unfolding open_file
  open_file-whole whole = rw whole

  open_file-part :
      size % page_size == 0 ≡ false
      → open_file true true size cache_size disk io ≡ throw not_aligned
  unfolding open_file
  open_file-part part = rw part

  opened-count :
      size / page_size < 2 ^ 32
      → size % page_size == 0 ≡ true
      → size ≡ (opened size cache_size disk io).page_count * page_size
  opened-count small whole = ground arith

  opened-IsCoherent :
      IsFile disk (size / page_size) → 0 < cache_size → IsCoherent (opened size cache_size disk io)
  unfolding lookup IsDistinct
  opened-IsCoherent f pos = record {
    sized = λ p e h. cc;
    clean = λ p e h k. cc;
    in_file = λ p e h. absurd cc;
    disk_sized = f.disk_sized;
    past_end = f.past_end;
    listed = λ p. refl;
    nodup = tt;
    positive = pos;
    bounded = omega arith;
    distinct = tt;
  }

  opened-view : (p : ℕ) → view (opened size cache_size disk io) p ≡ disk p
  unfolding view lookup
  opened-view p = refl

opened_file :
    (size cache_size : ℕ) (disk : ℕ → Page) (io : List Sys)
    → IsFile disk (size / page_size)
    → 0 < cache_size
    → size / page_size < 2 ^ 32
    → ((size % page_size ≢ 0) × (open_file true true size cache_size disk io ≡ throw not_aligned))
      ⊎ ((s : PageManager) × (open_file true true size cache_size disk io ≡ ok s)
          × (size ≡ s.page_count * page_size)
          × IsCoherent s
          × ((p : ℕ) → view s p ≡ disk p))
opened_file size cache_size disk io f pos small = elim (Bool-cases (size % page_size == 0)) [
  | inl whole ↦ inr (
    opened size cache_size disk io,
    open_file-whole size cache_size disk io whole,
    opened-count size cache_size disk io small whole,
    opened-IsCoherent size cache_size disk io f pos,
    opened-view size cache_size disk io,
  )
  | inr part ↦ inl (ground arith, open_file-part size cache_size disk io part)
]

-- The constructor throws where `open` fails, where `fstat` fails, and where the size of the file is no
-- multiple of the page size. In every other case, for a cache of at least one page and a file of less
-- than 2 ^ 32 pages, with zeros past its end, the manager is coherent, counts the pages of the file and
-- shows a client what is in it.
pub open_file-IsCoherent :
    (opens has_stat : Bool) (size cache_size : ℕ) (disk : ℕ → Page) (io : List Sys)
    → IsFile disk (size / page_size)
    → 0 < cache_size
    → size / page_size < 2 ^ 32
    → let o = open_file opens has_stat size cache_size disk io in
      ((opens ≡ false) × (o ≡ throw open_failed))
      ⊎ ((opens ≡ true) × (has_stat ≡ false) × (o ≡ throw fstat_failed))
      ⊎ ((opens ≡ true)
          × (has_stat ≡ true)
          × (((size % page_size ≢ 0) × (o ≡ throw not_aligned))
              ⊎ ((s : PageManager) × (o ≡ ok s)
                  × (size ≡ s.page_count * page_size)
                  × IsCoherent s
                  × ((p : ℕ) → view s p ≡ disk p))))
unfolding open_file
open_file-IsCoherent false has_stat size cache_size disk io f pos small = inl (refl, refl)
open_file-IsCoherent true false size cache_size disk io f pos small = inr (inl (refl, refl, refl))
open_file-IsCoherent true true size cache_size disk io f pos small =
    inr (inr (refl, refl, opened_file size cache_size disk io f pos small))
