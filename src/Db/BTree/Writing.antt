-- ===== src/Db/BTree/Writing.antt =====
-- What the calls that write do to the pages: a node is stored in its page, a page is added, the root
-- is recorded in page 0.
use c_book.Prelude.{
  ℕ, zero, suc, ◌+◌, ◌^◌, ◌<◌, ◌≡◌, ◌==◌, refl, ap, ◌∙◌, true, ok, length, length-set,
  if◌then◌else◌,
}
use mathlib.Core.Path.{fun_ext}
use c_book.Db.PageManager.{Page, make_page}
use c_book.Db.PageManager.Transfer.{page_size}
use c_book.Db.PageStore.{PageStore}
use c_book.Db.BTree.Layout.{NodeData, encode_node, fits_page, write_at, write_u32_at}
use c_book.Db.BTree.Decode.{length-encode_node}
use c_book.Db.BTree.{BPlusTree, call, write_node, save_metadata, metadata, fail, undefined_access}
use c_book.Db.BTree.Reading.{call-ok}

-- The pages with one of them replaced.
abbrev pub replaced : ℕ → Page → (ℕ → Page) → ℕ → Page
replaced pid page view q = if pid == q then page else view q

module _ (P : PageStore) where
  -- After a write: the page has its new contents, the others stay.
  pub record Wrote (pid : ℕ) (page : Page) (t t' : BPlusTree P) : Type 0 where
    pub ready : P.IsReady t'.pm
    pub count : P.page_count t'.pm ≡ P.page_count t.pm
    pub pages : P.view t'.pm ≡ replaced pid page (P.view t.pm)
    pub root : t'.root_page_id ≡ t.root_page_id

  pub write_page-Wrote :
      (pid : ℕ) (page : Page) (t : BPlusTree P)
      → P.IsReady t.pm
      → pid < P.page_count t.pm
      → length page ≡ page_size
      → (t' : BPlusTree P) × (call P (P.write_page pid page) t ≡ (ok tt, t')) × Wrote pid page t t'
  write_page-Wrote pid page t ready low size =
      let (s, e, r, c, v) = P.writes pid page t.pm ready low size in
      (
        record t { pm = s },
        call-ok P (P.write_page pid page) tt t s e,
        record { ready = r; count = c; pages = fun_ext v; root = refl },
      )

  pub write_node-Wrote :
      (pid : ℕ) (n : NodeData) (t : BPlusTree P)
      → P.IsReady t.pm
      → pid < P.page_count t.pm
      → fits_page n ≡ true
      → (t' : BPlusTree P) × (write_node P pid n t ≡ (ok tt, t')) × Wrote pid (encode_node n) t t'
  unfolding write_node
  write_node-Wrote pid n t ready low fits =
      let (t', e, w) =
        write_page-Wrote pid (encode_node n) t ready low (length-encode_node n fits) in
      (
        t',
        ap (λ b. (if b then call P (P.write_page pid (encode_node n)) else fail undefined_access) t)
              fits
            ∙ e,
        w,
      )

  length-write_at : (n i off v : ℕ) (p : Page) → length (write_at n i off v p) ≡ length p
  unfolding write_at
  length-write_at zero i off v p = refl
  length-write_at (suc n) i off v p = length-write_at n (i + 1) off v _ ∙ length-set p (off + i) _

  pub length-metadata : (root : ℕ) → length (metadata root) ≡ page_size
  unfolding metadata write_u32_at make_page
  length-metadata root = refl

  pub save_metadata-Wrote :
      (t : BPlusTree P)
      → P.IsReady t.pm
      → 0 < P.page_count t.pm
      → (t' : BPlusTree P) × (save_metadata P t ≡ (ok tt, t'))
        × Wrote 0 (metadata t.root_page_id) t t'
  unfolding save_metadata
  save_metadata-Wrote t ready low =
      write_page-Wrote 0 (metadata t.root_page_id) t ready low (length-metadata t.root_page_id)

  -- After an allocation: one page more, of zeros.
  pub record Allocated (t t' : BPlusTree P) : Type 0 where
    pub ready : P.IsReady t'.pm
    pub count : P.page_count t'.pm ≡ P.page_count t.pm + 1
    pub pages : P.view t'.pm ≡ replaced (P.page_count t.pm) make_page (P.view t.pm)
    pub root : t'.root_page_id ≡ t.root_page_id

  pub allocate_page-Allocated :
      (t : BPlusTree P)
      → P.IsReady t.pm
      → P.page_count t.pm + 1 < 2 ^ 32
      → (t' : BPlusTree P) × (call P P.allocate_page t ≡ (ok (P.page_count t.pm), t'))
        × Allocated t t'
  allocate_page-Allocated t ready small =
      let (s, e, r, c, v) = P.allocates t.pm ready small in
      (
        record t { pm = s },
        call-ok P P.allocate_page (P.page_count t.pm) t s e,
        record { ready = r; count = c; pages = fun_ext v; root = refl },
      )
