-- ===== src/Db/PageManager/Store.antt =====
-- The page manager is a store of pages, ready while it is coherent and no call to come fails.
use c_book.Prelude.{ℕ, ◌+◌, ◌^◌, ◌<◌, ◌≡◌, ◌==◌, ap, ◌∙◌, Outcome, ok, length, if◌then◌else◌}
use c_book.Db.PageStore.{PageStore}
use c_book.Db.PageManager.Transfer.{page_size}
use c_book.Db.PageManager.{
  Page, make_page, PageError, PageManager, read_page, write_page, allocate_page, sync,
}
use c_book.Db.PageManager.Invariant.{IsCoherent, view}
use c_book.Db.PageManager.Reading.{read_page-Reads}
use c_book.Db.PageManager.Writing.{write_page-Writes}
use c_book.Db.PageManager.Allocation.{allocate_page-Allocates}
use c_book.Db.PageManager.Sync.{sync-Syncs}
use c_book.Db.PageManager.Success.{
  IsCalm, read_page-ok, write_page-ok, allocate_page-ok, sync-IsCalm,
}

abbrev pub IsReady : PageManager → Type 0
IsReady s = IsCoherent s × IsCalm s.io

pair_eq :
    {A : Type 0} (o : Outcome PageError A × PageManager) (a : A) → o.0 ≡ ok a → o ≡ (ok a, o.1)
pair_eq (r, s) a e = ap (λ x. (x, s)) e

pub read_page-view :
    (p : ℕ) (s : PageManager)
    → IsReady s
    → p < s.page_count
    → (s' : PageManager) × (read_page p s ≡ (ok (view s p), s'))
      × IsReady s'
      × (s'.page_count ≡ s.page_count)
      × ((q : ℕ) → view s' q ≡ view s q)
read_page-view p s (c, calm) low =
    let (page, e, calm') = read_page-ok p s c calm low in
    let r = read_page-Reads p s c in
    (
      (read_page p s).1,
      pair_eq (read_page p s) (view s p) (e ∙ ap ok (r.value page e)),
      (r.keeps.coherent, calm'),
      r.keeps.count,
      r.keeps.same,
    )

pub write_page-view :
    (p : ℕ) (page : Page) (s : PageManager)
    → IsReady s
    → p < s.page_count
    → length page ≡ page_size
    → (s' : PageManager) × (write_page p page s ≡ (ok tt, s'))
      × IsReady s'
      × (s'.page_count ≡ s.page_count)
      × ((q : ℕ) → view s' q ≡ (if p == q then page else view s q))
write_page-view p page s (c, calm) low size =
    let (u, e, calm') = write_page-ok p page s c calm low size in
    let w = write_page-Writes p page s c in
    (
      (write_page p page s).1,
      pair_eq (write_page p page s) tt e,
      (w.coherent, calm'),
      w.count,
      w.stored e,
    )

pub allocate_page-view :
    (s : PageManager)
    → IsReady s
    → s.page_count + 1 < 2 ^ 32
    → (s' : PageManager) × (allocate_page s ≡ (ok s.page_count, s'))
      × IsReady s'
      × (s'.page_count ≡ s.page_count + 1)
      × ((q : ℕ) → view s' q ≡ (if s.page_count == q then make_page else view s q))
allocate_page-view s (c, calm) small =
    let (id, e, calm') = allocate_page-ok s c calm small in
    let a = allocate_page-Allocates s c small in
    let (number, seen) = a.new id e in
    (
      (allocate_page s).1,
      pair_eq (allocate_page s) s.page_count (e ∙ ap ok number),
      (a.coherent, calm'),
      a.count,
      seen,
    )

pub sync-view :
    (s : PageManager)
    → IsReady s
    → IsReady (sync s).1
      × ((sync s).1.page_count ≡ s.page_count)
      × ((q : ℕ) → view (sync s).1 q ≡ view s q)
      × ((sync s).0 ≡ ok tt → (q : ℕ) → (sync s).1.disk q ≡ view s q)
sync-view s (c, calm) =
    let y = sync-Syncs s c in
    ((y.keeps.coherent, sync-IsCalm s calm), y.keeps.count, y.keeps.same, y.durable)

abbrev pub page_store : PageStore
page_store = record {
  State = PageManager;
  page_count = λ s. s.page_count;
  read_page = read_page;
  write_page = write_page;
  allocate_page = allocate_page;
  sync = sync;
  view = view;
  disk = λ s. s.disk;
  IsReady = IsReady;
  reads = read_page-view;
  writes = write_page-view;
  allocates = allocate_page-view;
  syncs = sync-view;
}
