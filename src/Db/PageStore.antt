-- ===== src/Db/PageStore.antt =====
-- What the B+ tree asks of the page manager: pages by number, which calls read, write and add. A
-- client sees an array of pages; as long as the store is ready, calls return.
use c_book.Prelude.{ℕ, ◌+◌, ◌^◌, ◌<◌, ◌≡◌, ◌==◌, Outcome, ok, length, if◌then◌else◌}
use c_book.Db.PageManager.Transfer.{page_size}
use c_book.Db.PageManager.{Page, make_page, PageError}

pub record PageStore : Type 1 where
  pub State : Type 0
  pub page_count : State → ℕ
  pub read_page : ℕ → State → Outcome PageError Page × State
  pub write_page : ℕ → Page → State → Outcome PageError Unit × State
  pub allocate_page : State → Outcome PageError ℕ × State
  pub sync : State → Outcome PageError Unit × State
  pub view : State → ℕ → Page
  -- What the file has, whatever a client sees.
  pub disk : State → ℕ → Page
  pub IsReady : State → Type 0
  pub reads :
      (p : ℕ) (s : State)
      → IsReady s
      → p < page_count s
      → (s' : State) × (read_page p s ≡ (ok (view s p), s'))
        × IsReady s'
        × (page_count s' ≡ page_count s)
        × ((q : ℕ) → view s' q ≡ view s q)
  pub writes :
      (p : ℕ) (page : Page) (s : State)
      → IsReady s
      → p < page_count s
      → length page ≡ page_size
      → (s' : State) × (write_page p page s ≡ (ok tt, s'))
        × IsReady s'
        × (page_count s' ≡ page_count s)
        × ((q : ℕ) → view s' q ≡ (if p == q then page else view s q))
  pub allocates :
      (s : State)
      → IsReady s
      → page_count s + 1 < 2 ^ 32
      → (s' : State) × (allocate_page s ≡ (ok (page_count s), s'))
        × IsReady s'
        × (page_count s' ≡ page_count s + 1)
        × ((q : ℕ) → view s' q ≡ (if page_count s == q then make_page else view s q))
  pub syncs :
      (s : State)
      → IsReady s
      → IsReady (sync s).1
        × (page_count (sync s).1 ≡ page_count s)
        × ((q : ℕ) → view (sync s).1 q ≡ view s q)
        × ((sync s).0 ≡ ok tt → (q : ℕ) → disk (sync s).1 q ≡ view s q)
