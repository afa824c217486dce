-- ===== src/Db/PageManager/Success.antt =====
-- Where no system call fails, the operations of the page manager return: every exception that is
-- not about the arguments stems from a failed call.
use c_book.Prelude.{
  ℕ, ◌+◌, ◌-◌, ◌^◌, ◌<◌, ◌≡◌, refl, sym, ap, ◌∙◌, true, false, List, [], ◌∷◌, Outcome, ok, arith,
  inl, inr, subst, Option-cases, Bool-cases, ltb, leb, min, length, take, drop, ◌++◌,
}
use c_book.Db.PageManager.Cache.{Entry, Assoc, lookup}
use c_book.Db.PageManager.Transfer.{Sys, moved, interrupted, failed, transfer_loop, page_size}
use c_book.Db.PageManager.{
  Page, make_page, PageError, PageManager, flush_entry, flushed, evict, evict_victim,
  evict_one_if_full, pread_page, insert_entry, fetch, load_into_cache, touch, read_page, write_page,
  sync, sync_loop, fsync, allocate_page, continue, Exec, store_entry,
}
use c_book.Db.PageManager.Invariant.{IsCoherent, view}
use c_book.Db.PageManager.Eviction.{victim_cached, evict_one-free, evict_one-full}
use c_book.Db.PageManager.Reading.{read_page-Reads, load-hit, load-miss, read_page-inside}
use c_book.Db.PageManager.Writing.{write_page-inside, write_page-Writes}
use c_book.Db.PageManager.Allocation.{grown, grown-IsCoherent, allocate_page-Allocates}
use c_book.Db.PageManager.Loading.{reframe-Keeps}

-- No call fails; an interrupted one is tried again.
abbrev pub IsCalm : List Sys → Type 0
IsCalm [] = Unit
IsCalm (moved n ∷ io) = IsCalm io
IsCalm (interrupted ∷ io) = IsCalm io
IsCalm (failed ∷ io) = ⊥

-- The call returns, and the calls to come do not fail either.
abbrev pub Returns : {A : Type 0} → Outcome PageError A × PageManager → Type 0
Returns {A} o = (a : A) × (o.0 ≡ ok a) × IsCalm o.1.io

transfer_loop-done :
    (io : List Sys) (total calls : ℕ)
    → IsCalm io
    → ((transfer_loop io total calls).done ≡ true) × IsCalm (transfer_loop io total calls).io
unfolding transfer_loop
transfer_loop-done [] total calls h = ground arith
transfer_loop-done (moved n ∷ io) total calls h =
    ground (arith, transfer_loop-done io (total + min (n + 1) (page_size - total)) (calls + 1) h)
transfer_loop-done (interrupted ∷ io) total calls h =
    ground (arith, transfer_loop-done io total calls h)
transfer_loop-done (failed ∷ io) total calls h = absurd h

continue-Returns :
    {A B : Type 0} (o : Outcome PageError A × PageManager) (f : A → Exec B)
    → Returns o
    → ((a : A) (s : PageManager) → IsCalm s.io → Returns (f a s))
    → Returns (continue o.0 f o.1)
continue-Returns (r, s) f (a, e, calm) next =
    subst (λ q. Returns (continue q f s)) (sym e) (next a s calm)

flush_entry-Returns :
    (p : ℕ) (e : Entry) (s : PageManager) → IsCalm s.io → Returns (flush_entry p e s)
unfolding flush_entry flushed
flush_entry-Returns p e s h = elim (Bool-cases e.dirty) [
  | inl d ↦ (
    tt,
    ground (arith, transfer_loop-done s.io 0 0 h),
    ground (arith, transfer_loop-done s.io 0 0 h),
  )
  | inr d ↦ (tt, ground arith, ground arith)
]

evict_one-Returns : (s : PageManager) → IsCoherent s → IsCalm s.io → Returns (evict_one_if_full s)
unfolding evict_victim evict
evict_one-Returns s c h = elim (Bool-cases (ltb (length s.cache) s.cache_size)) [
  | inl free ↦ subst Returns (sym (evict_one-free s free)) (tt, refl, h)
  | inr full ↦
      let (v, e, last, found) = victim_cached s c (ground arith) in
      subst Returns (sym (evict_one-full s v e full last found)) (
        continue-Returns (flush_entry v e s) (λ u t. (ok tt, evict v t))
          (flush_entry-Returns v e s h) (λ u t k. (tt, refl, k)))
]

pread_page-Returns : (p : ℕ) (s : PageManager) → IsCalm s.io → Returns (pread_page p s)
unfolding pread_page
pread_page-Returns p s h = elim (Bool-cases (leb s.file_pages p)) [
  | inl past ↦ (make_page, ground arith, ground arith)
  | inr inside ↦ (
    take (transfer_loop s.io 0 0).total (s.disk p) ++ drop (transfer_loop s.io 0 0).total make_page,
    ground (arith, transfer_loop-done s.io 0 0 h),
    ground (arith, transfer_loop-done s.io 0 0 h),
  )
]

fetch-Returns : (p : ℕ) (s : PageManager) → IsCoherent s → IsCalm s.io → Returns (fetch p s)
unfolding fetch insert_entry
fetch-Returns p s c h = continue-Returns (evict_one_if_full s) _ (evict_one-Returns s c h) (λ u t k.
    continue-Returns (pread_page p t) _ (pread_page-Returns p t k)
      (λ page v m. (record { page = page; dirty = false }, refl, m)))

touch-io : (p : ℕ) (s : PageManager) → (touch p s).io ≡ s.io
unfolding touch
touch-io p s = ground arith

load-Returns :
    (p : ℕ) (s : PageManager) → IsCoherent s → IsCalm s.io → Returns (load_into_cache p s)
load-Returns p s c h = elim (Option-cases (lookup p s.cache)) [
  | inl absent ↦
      let m = record s { stats = record s.stats { misses = s.stats.misses + 1 } } in
      let k = reframe-Keeps s m refl refl refl refl refl refl c in
      subst Returns (sym (load-miss p s absent)) (fetch-Returns p m k.coherent h)
  | inr (e, found) ↦
      let m = record s { stats = record s.stats { hits = s.stats.hits + 1 } } in
      subst Returns (sym (load-hit p e s found)) (e, refl, subst IsCalm (sym (touch-io p m)) h)
]

pub read_page-ok :
    (p : ℕ) (s : PageManager)
    → IsCoherent s
    → IsCalm s.io
    → p < s.page_count
    → Returns (read_page p s)
read_page-ok p s c h low =
    subst Returns (sym (read_page-inside p s low))
      (continue-Returns (load_into_cache p s) _ (load-Returns p s c h) (λ e t k. (e.page, refl, k)))

-- From any coherent state, with no failing call to come, a page below the page count is read: the
-- call returns, and what it returns is the page as a client sees it.
read_page-returns :
    (p : ℕ) (s : PageManager)
    → IsCoherent s
    → IsCalm s.io
    → p < s.page_count
    → (read_page p s).0 ≡ ok (view s p)
read_page-returns p s c h low =
    let (page, e, calm) = read_page-ok p s c h low in
    e ∙ ap ok ((read_page-Reads p s c).value page e)

pub write_page-ok :
    (p : ℕ) (page : Page) (s : PageManager)
    → IsCoherent s
    → IsCalm s.io
    → p < s.page_count
    → length page ≡ page_size
    → Returns (write_page p page s)
unfolding store_entry
write_page-ok p page s c h low size =
    subst Returns (sym (write_page-inside p page s low size))
      (continue-Returns (load_into_cache p s) _ (load-Returns p s c h) (λ e t k. (tt, refl, k)))

-- From any coherent state, with no failing call to come, a page of the page size below the page
-- count is written: the call returns, and a client then sees the new page.
write_page-returns :
    (p : ℕ) (page : Page) (s : PageManager)
    → IsCoherent s
    → IsCalm s.io
    → p < s.page_count
    → length page ≡ page_size
    → ((write_page p page s).0 ≡ ok tt) × (view (write_page p page s).1 p ≡ page)
write_page-returns p page s c h low size =
    let (u, e, calm) = write_page-ok p page s c h low size in
    (e, ground (arith, (write_page-Writes p page s c).stored e p))

pub allocate_page-ok :
    (s : PageManager)
    → IsCoherent s
    → IsCalm s.io
    → s.page_count + 1 < 2 ^ 32
    → Returns (allocate_page s)
unfolding allocate_page insert_entry
allocate_page-ok s c h small =
    continue-Returns (evict_one_if_full (grown s)) _
      (evict_one-Returns (grown s) (grown-IsCoherent s c small) h)
      (λ u t k. (s.page_count, refl, k))

-- From any coherent state of less than 2 ^ 32 - 1 pages, with no failing call to come, a page is
-- allocated: the call returns the old page count, and a client sees zeros in the new page.
allocate_page-returns :
    (s : PageManager)
    → IsCoherent s
    → IsCalm s.io
    → s.page_count + 1 < 2 ^ 32
    → ((allocate_page s).0 ≡ ok s.page_count) × (view (allocate_page s).1 s.page_count ≡ make_page)
allocate_page-returns s c h small =
    let (id, e, calm) = allocate_page-ok s c h small in
    let (number, seen) = (allocate_page-Allocates s c small).new id e in
    (e ∙ ap ok number, ground (arith, seen s.page_count))

sync_loop-Returns : (c : Assoc) (s : PageManager) → IsCalm s.io → Returns (sync_loop c s)
unfolding sync_loop
sync_loop-Returns [] s h = (tt, refl, h)
sync_loop-Returns ((p, e) ∷ rest) s h =
    continue-Returns (flush_entry p e s) _ (flush_entry-Returns p e s h)
      (λ u t k. sync_loop-Returns rest t k)

fsync-IsCalm : (io : List Sys) → IsCalm io → IsCalm (fsync io).1
unfolding fsync
fsync-IsCalm [] h = tt
fsync-IsCalm (moved n ∷ io) h = h
fsync-IsCalm (interrupted ∷ io) h = h
fsync-IsCalm (failed ∷ io) h = absurd h

-- `fsync` is not tried again after a signal, so `sync` may throw; the calls to come stay calm.
pub sync-IsCalm : (s : PageManager) → IsCalm s.io → IsCalm (sync s).1.io
unfolding sync
sync-IsCalm s h =
    let (u, e, calm) = sync_loop-Returns s.cache s h in
    subst (λ r. IsCalm (continue r finish (sync_loop s.cache s).1).1.io) (sym e)
      (fsync-IsCalm (sync_loop s.cache s).1.io calm)
  where
    finish : Unit {0} → Exec (Unit {0})
    finish u s' = let (r, io) = fsync s'.io in (r, record s' { io = io })
