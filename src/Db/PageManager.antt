-- ===== src/Db/PageManager.antt =====
-- demo-db/include/page.h, demo-db/include/page_manager.h and demo-db/src/page_manager.cpp: the
-- page file behind its LRU cache.
pub mod Cache
pub mod Transfer
pub mod Invariant
pub mod Eviction
pub mod Loading
pub mod Reading
pub mod Writing
pub mod Allocation
pub mod Sync
pub mod Success
pub mod Store
mod Tests
use c_book.Prelude.{
  ℕ, zero, suc, ◌+◌, ◌-◌, ◌*◌, ◌/◌, ◌%◌, ◌^◌, Bool, true, false, not, ◌&&◌, List, [], ◌∷◌, ◌++◌,
  Option, none, some, Outcome, ok, throw, length, take, drop, replicate, ltb, leb, ◌==◌,
  if◌then◌else◌,
}
use Cache.{Entry, Assoc, lookup, put, erase, emplace, remove, back, pop_back}
use Transfer.{Sys, moved, interrupted, failed, Transferred, page_size, transfer_loop}

abbrev pub Page : Type 0
Page = List ℕ

unfoldable pub make_page : Page
make_page = replicate page_size 0

-- `undefined` is no exception of the code: it marks a use of an empty list's `back()` or of `end()`.
pub data PageError : Type 0 where
  open_failed fstat_failed not_aligned pwrite_failed pread_failed fsync_failed wrong_size
        undefined :
      PageError
  out_of_range : ℕ → PageError

pub record Stats : Type 0 where
  pub hits : ℕ
  pub misses : ℕ
  pub evictions : ℕ
  pub disk_reads : ℕ
  pub disk_writes : ℕ

abbrev pub no_stats : Stats
no_stats = record { hits = 0; misses = 0; evictions = 0; disk_reads = 0; disk_writes = 0 }

-- The manager's fields, and what stands for the operating system: the contents of each page of the
-- file (zeros past its end), the pages that the file has, and what the coming system calls do.
pub record PageManager : Type 0 where
  pub page_count : ℕ
  pub cache_size : ℕ
  pub stats : Stats
  pub lru : List ℕ
  pub cache : Assoc
  pub disk : ℕ → Page
  pub file_pages : ℕ
  pub io : List Sys

-- The constructor, from whether `open` and `fstat` succeed, the size that `fstat` gives and what is in
-- the file.
unfoldable pub open_file :
    Bool → Bool → ℕ → ℕ → (ℕ → Page) → List Sys → Outcome PageError PageManager
open_file opens has_stat size cache_size disk io =
    if not opens
    then throw open_failed
    else if not has_stat
    then throw fstat_failed
    else if size % page_size == 0
    then ok (record {
      page_count = size / page_size % 2 ^ 32;
      cache_size = cache_size;
      stats = no_stats;
      lru = [];
      cache = [];
      disk = disk;
      file_pages = size / page_size;
      io = io;
    })
    else throw not_aligned

abbrev pub Exec : Type 0 → Type 0
Exec A = PageManager → Outcome PageError A × PageManager

abbrev pub continue : {A B : Type 0} → Outcome PageError A → (A → Exec B) → Exec B
continue (ok a) f s = f a s
continue (throw e) f s = (throw e, s)

infixl 5 ◌>>=◌
abbrev pub ◌>>=◌ : {A B : Type 0} → Exec A → (A → Exec B) → Exec B
◌>>=◌ m f s = let (r, s') = m s in continue r f s'

pub touch : ℕ → PageManager → PageManager
unfolding lookup remove
touch pid s = elim (lookup pid s.cache) [
  | none ↦ s
  | some e ↦ record s { lru = pid ∷ remove pid s.lru }
]

pub update : (ℕ → Page) → ℕ → Page → ℕ → Page
update disk pid page p = if p == pid then page else disk p

-- After the loop of `flush_entry`: what was written is on disk, also where a later call failed.
pub flushed : ℕ → Entry → Transferred → PageManager → PageManager
unfolding update put
flushed pid e t s = record s {
  disk = update s.disk pid (take t.total e.page ++ drop t.total (s.disk pid));
  file_pages = (if ltb 0 t.total && ltb s.file_pages (pid + 1) then pid + 1 else s.file_pages);
  io = t.io;
  stats = record s.stats { disk_writes = s.stats.disk_writes + t.calls };
  cache = (if t.done then put pid (record e { dirty = false }) s.cache else s.cache);
}

pub flush_entry : ℕ → Entry → Exec Unit
unfolding transfer_loop flushed
flush_entry pid e s =
    if not e.dirty
    then (ok tt, s)
    else let t = transfer_loop s.io 0 0 in
      ((if t.done then ok tt else throw pwrite_failed), flushed pid e t s)

pub evict : ℕ → PageManager → PageManager
unfolding pop_back erase
evict victim s = record s {
  stats = record s.stats { evictions = s.stats.evictions + 1 };
  lru = pop_back s.lru;
  cache = erase victim s.cache;
}

-- The victim is written back if it is dirty, and then dropped.
pub evict_victim : ℕ → Entry → Exec Unit
unfolding flush_entry evict
evict_victim victim e = flush_entry victim e >>= λ u s. (ok tt, evict victim s)

pub evict_one_if_full : Exec Unit
unfolding back lookup
evict_one_if_full s = if ltb (length s.cache) s.cache_size then (ok tt, s) else elim (back s.lru) [
  | none ↦ (throw undefined, s)
  | some victim ↦ elim (lookup victim s.cache) [
    | none ↦ (throw undefined, s)
    | some e ↦ evict_victim victim e s
  ]
]

-- The bytes that `pread` fetched, and zeros for the rest of the page. At the end of the file the
-- first call returns 0.
pub pread_page : ℕ → Exec Page
unfolding transfer_loop make_page
pread_page pid s =
    if leb s.file_pages pid
    then (ok make_page, s)
    else let t = transfer_loop s.io 0 0 in
      let s' = record s {
        io = t.io;
        stats = record s.stats { disk_reads = s.stats.disk_reads + t.calls };
      } in
      if t.done
      then (ok (take t.total (s.disk pid) ++ drop t.total make_page), s')
      else (throw pread_failed, s')

pub insert_entry : ℕ → Entry → PageManager → PageManager
unfolding emplace
insert_entry pid e s = record s { lru = pid ∷ s.lru; cache = emplace pid e s.cache }

pub fetch : ℕ → Exec Entry
unfolding evict_one_if_full pread_page insert_entry
fetch pid = evict_one_if_full >>= λ u. pread_page pid >>= λ page s.
    let e : Entry = record { page = page; dirty = false } in (ok e, insert_entry pid e s)

pub load_into_cache : ℕ → Exec Entry
unfolding touch fetch
load_into_cache pid s = elim (lookup pid s.cache) [
  | some e ↦ (ok e, touch pid (record s { stats = record s.stats { hits = s.stats.hits + 1 } }))
  | none ↦ fetch pid (record s { stats = record s.stats { misses = s.stats.misses + 1 } })
]

pub read_page : ℕ → Exec Page
unfolding load_into_cache
read_page pid s =
    if leb s.page_count pid
    then (throw (out_of_range pid), s)
    else (load_into_cache pid >>= λ e s'. (ok e.page, s')) s

pub store_entry : ℕ → Page → PageManager → PageManager
unfolding put
store_entry pid page s = record s { cache = put pid (record { page = page; dirty = true }) s.cache }

pub write_page : ℕ → Page → Exec Unit
unfolding load_into_cache store_entry
write_page pid page s =
    if leb s.page_count pid
    then (throw (out_of_range pid), s)
    else if not (length page == page_size)
    then (throw wrong_size, s)
    else (load_into_cache pid >>= λ e s'. (ok tt, store_entry pid page s')) s

pub allocate_page : Exec ℕ
unfolding evict_one_if_full insert_entry make_page
allocate_page s =
    let new_id = s.page_count in
    (evict_one_if_full >>= λ u s'.
    (ok new_id, insert_entry new_id (record { page = make_page; dirty = true }) s'))
      (record s { page_count = (s.page_count + 1) % 2 ^ 32 })

-- The loop of `sync` over the cache; flushing changes no entry but its own.
pub sync_loop : Assoc → Exec Unit
unfolding flush_entry
sync_loop [] s = (ok tt, s)
sync_loop ((pid, e) ∷ rest) s = (flush_entry pid e >>= λ u. sync_loop rest) s

-- `fsync` takes one system call, and does not try again after a signal.
pub fsync : List Sys → Outcome PageError Unit × List Sys
fsync [] = (ok tt, [])
fsync (moved n ∷ io) = (ok tt, io)
fsync (s ∷ io) = (throw fsync_failed, io)

pub sync : Exec Unit
unfolding sync_loop fsync
sync s = (sync_loop s.cache >>= λ u s'. let (r, io) = fsync s'.io in (r, record s' { io = io })) s

pub reset_stats : PageManager → PageManager
reset_stats s = record s { stats = no_stats }

-- The destructor: `sync`, whose exception is dropped, and `close`. What is left is the file.
pub close_file : PageManager → ℕ → Page
unfolding sync
close_file s = (sync s).1.disk
