-- ===== src/Db/PageManager/Loading.antt =====
-- `load_into_cache`: hits, misses and the read from disk, as a client sees them.
use c_book.Prelude.{
  ℕ, ◌<◌, ◌≡◌, ◌≢◌, refl, sym, ap, ◌∙◌, false, ◌∷◌, none, some, Outcome, ok, throw, length, arith,
}
use c_book.Db.PageManager.Cache.{
  Entry, lookup, remove, emplace-IsDistinct, lookup-emplace, length-emplace_le, mem-remove,
  remove-IsNodup, emplace-IsDistinct,
}
use c_book.Db.PageManager.Transfer.{transfer_loop, transfer_loop-total}
use c_book.Db.PageManager.{
  Page, make_page, PageError, undefined, PageManager, touch, evict_one_if_full, pread_page,
  insert_entry, fetch, continue, ◌>>=◌,
}
use c_book.Db.PageManager.Invariant.{
  is_some, IsCoherent, view, Keeps, Keeps-trans, length-make_page, overwrite_whole,
}
use c_book.Db.PageManager.Eviction.{Evicts, evict_one-Evicts}

-- Statistics and system calls are none of the client's business.
module _ (s s' : PageManager) (pages : s'.page_count ≡ s.page_count)
    (size : s'.cache_size ≡ s.cache_size) (lru : s'.lru ≡ s.lru) (cache : s'.cache ≡ s.cache)
    (disk : s'.disk ≡ s.disk) (file : s'.file_pages ≡ s.file_pages) where
  reframe : IsCoherent s → IsCoherent s'
  reframe c = record {
    sized = λ p e. rw cache (c.sized p e);
    clean = λ p e. rw (cache, disk) (c.clean p e);
    in_file = λ p e. rw (cache, pages) (c.in_file p e);
    disk_sized = λ p. rw disk (c.disk_sized p);
    past_end = λ p. rw (file, disk) (c.past_end p);
    listed = λ p. rw (lru, cache) (c.listed p);
    nodup = rw lru c.nodup;
    positive = rw size c.positive;
    bounded = rw (cache, size) c.bounded;
    distinct = rw cache c.distinct;
  }

  pub reframe-Keeps : IsCoherent s → Keeps s s'
  unfolding view
  reframe-Keeps c = record {
    coherent = reframe c;
    same = λ p. rw (cache, disk) refl;
    count = pages;
    capacity = size;
  }

touch-hit :
    (p : ℕ) (d : Entry) (s : PageManager)
    → lookup p s.cache ≡ some d
    → touch p s ≡ record s { lru = p ∷ remove p s.lru }
unfolding touch
touch-hit p d s e = ground arith

-- A hit moves the page to the front.
pub touch-Keeps :
    (p : ℕ) (d : Entry) (s : PageManager)
    → IsCoherent s
    → lookup p s.cache ≡ some d
    → Keeps s (touch p s)
unfolding view
touch-Keeps p d s c e = rw (touch-hit p d s e) (record {
  coherent = record {
    sized = c.sized;
    clean = c.clean;
    in_file = c.in_file;
    disk_sized = c.disk_sized;
    past_end = c.past_end;
    listed = λ q. ground (arith, c.listed q, c.listed p, mem-remove p q s.lru c.nodup);
    nodup = (ground (arith, mem-remove p p s.lru c.nodup), remove-IsNodup p s.lru c.nodup);
    positive = c.positive;
    bounded = c.bounded;
    distinct = c.distinct;
  };
  same = λ q. refl;
  count = refl;
  capacity = refl;
})

-- What is read is what the disk has, however the calls cut it up.
pread_page-disk :
    (s : PageManager) (p : ℕ) (page : Page)
    → IsCoherent s
    → (pread_page p s).0 ≡ ok page
    → page ≡ s.disk p
unfolding pread_page
pread_page-disk s p page c e = ground (
  arith,
  c.past_end p,
  transfer_loop-total s.io 0 0,
  overwrite_whole (transfer_loop s.io 0 0).total (s.disk p) make_page (c.disk_sized p)
      length-make_page,
)

pread_page-Keeps : (s : PageManager) (p : ℕ) → IsCoherent s → Keeps s (pread_page p s).1
unfolding pread_page
pread_page-Keeps s p c =
    reframe-Keeps s (pread_page p s).1 (ground arith) (ground arith) (ground arith) (ground arith)
      (ground arith) (ground arith) c

pread_page-cache : (s : PageManager) (p : ℕ) → (pread_page p s).1.cache ≡ s.cache
unfolding pread_page
pread_page-cache s p = ground arith

pread_page-disk_same : (s : PageManager) (p : ℕ) → (pread_page p s).1.disk ≡ s.disk
unfolding pread_page
pread_page-disk_same s p = ground arith

pread_page-defined : (s : PageManager) (p : ℕ) → (pread_page p s).0 ≢ throw undefined
unfolding pread_page
pread_page-defined s p h = ground arith

-- Caching a page that is not there, with what the disk has of it.
pub insert-Keeps :
    (p : ℕ) (e : Entry) (s : PageManager)
    → IsCoherent s
    → lookup p s.cache ≡ none
    → e.page ≡ s.disk p
    → p < s.page_count
    → length s.cache < s.cache_size
    → Keeps s (insert_entry p e s)
unfolding insert_entry view
insert-Keeps p e s c absent same low room = record {
  coherent = record {
    sized =
        λ q d h. ground (arith, lookup-emplace p q e s.cache absent, c.sized q d, c.disk_sized p);
    clean = λ q d h k. ground (arith, lookup-emplace p q e s.cache absent, c.clean q d);
    in_file = λ q d h. ground (arith, lookup-emplace p q e s.cache absent, c.in_file q d);
    disk_sized = c.disk_sized;
    past_end = c.past_end;
    listed = λ q. ground (arith, lookup-emplace p q e s.cache absent, c.listed q);
    nodup = (c.listed p ∙ ap is_some absent, c.nodup);
    positive = c.positive;
    bounded = omega (arith, length-emplace_le p e s.cache);
    distinct = emplace-IsDistinct p e s.cache c.distinct;
  };
  same = λ q. ground (arith, lookup-emplace p q e s.cache absent);
  count = refl;
  capacity = refl;
}

-- A load is not noticed, whether it returns or throws. If it returns, the entry is in the cache and
-- holds the page that a client sees.
pub record Loads (p : ℕ) (s : PageManager) (r : Outcome PageError Entry) (s' : PageManager)
    : Type 0 where
  pub keeps : Keeps s s'
  pub value : (e : Entry) → r ≡ ok e → (e.page ≡ view s p) × (lookup p s'.cache ≡ some e)
  pub defined : r ≢ throw undefined

view-absent : (s : PageManager) (p : ℕ) → lookup p s.cache ≡ none → view s p ≡ s.disk p
unfolding view
view-absent s p h = rw h

pub view-cached :
    (s : PageManager) (p : ℕ) (e : Entry) → lookup p s.cache ≡ some e → view s p ≡ e.page
unfolding view
view-cached s p e h = rw h

lookup-insert :
    (p : ℕ) (e : Entry) (s : PageManager)
    → lookup p s.cache ≡ none
    → lookup p (insert_entry p e s).cache ≡ some e
unfolding insert_entry
lookup-insert p e s h = ground (arith, lookup-emplace p p e s.cache h)

-- The continuations of `fetch`, over what the calls in front of them returned.
abbrev add_page : ℕ → Page → PageManager → Outcome PageError Entry × PageManager
add_page p page s =
    let e : Entry = record { page = page; dirty = false } in (ok e, insert_entry p e s)

after_read :
    (p : ℕ) (s s' : PageManager) (r : Outcome PageError Page)
    → IsCoherent s
    → lookup p s.cache ≡ none
    → p < s.page_count
    → length s.cache < s.cache_size
    → r ≢ throw undefined
    → Keeps s s'
    → s'.cache ≡ s.cache
    → s'.disk ≡ s.disk
    → ((page : Page) → r ≡ ok page → page ≡ s.disk p)
    → Loads p s (continue r (add_page p) s').0 (continue r (add_page p) s').1
after_read p s s' (throw x) c absent low room d k ec ed value = record {
  keeps = k;
  value = λ e h. cc;
  defined = λ h. d (ground arith);
}
after_read p s s' (ok page) c absent low room d k ec ed value =
    let e : Entry = record { page = page; dirty = false } in
    let absent' : lookup p s'.cache ≡ none = ap (lookup p) ec ∙ absent in
    record {
      keeps = Keeps-trans k (
          insert-Keeps p e s' k.coherent absent' (value page refl ∙ sym (ap (λ f. f p) ed))
            (omega (arith, k.count)) (omega (arith, k.capacity, ap (length {A = ℕ × Entry}) ec)));
      value = λ x h. (
        cc (value page refl, view-absent s p absent, h),
        lookup-insert p e s' absent' ∙ ap some (ok-injective h),
      );
      defined = λ h. cc;
    }
  where
    ok-injective : {a b : Entry} → ◌≡◌ {A = Outcome PageError Entry} (ok a) (ok b) → a ≡ b
    ok-injective h = cc

read_then_add : ℕ → PageManager → Outcome PageError Entry × PageManager
unfolding fetch
read_then_add p = pread_page p >>= add_page p

read_then_add-Loads :
    (p : ℕ) (s : PageManager)
    → IsCoherent s
    → lookup p s.cache ≡ none
    → p < s.page_count
    → length s.cache < s.cache_size
    → Loads p s (read_then_add p s).0 (read_then_add p s).1
unfolding read_then_add
read_then_add-Loads p s c absent low room =
    after_read p s (pread_page p s).1 (pread_page p s).0 c absent low room (pread_page-defined s p)
      (pread_page-Keeps s p c) (pread_page-cache s p) (pread_page-disk_same s p)
      (λ page. pread_page-disk s p page c)

after_evict :
    (p : ℕ) (s s' : PageManager) (r : Outcome PageError Unit)
    → IsCoherent s
    → lookup p s.cache ≡ none
    → p < s.page_count
    → Evicts s r s'
    → Loads p s (continue r (λ u. read_then_add p) s').0 (continue r (λ u. read_then_add p) s').1
after_evict p s s' (throw x) c absent low v = record {
  keeps = v.keeps;
  value = λ e h. cc;
  defined = λ h. v.defined (ground arith);
}
after_evict p s s' (ok u) c absent low v =
    let l =
      read_then_add-Loads p s' v.keeps.coherent (v.absent p absent) (omega (arith, v.keeps.count))
        (v.room refl) in
    record {
      keeps = Keeps-trans v.keeps l.keeps;
      value = λ e h. ((l.value e h).0 ∙ v.keeps.same p, (l.value e h).1);
      defined = l.defined;
    }

pub fetch-Loads :
    (p : ℕ) (s : PageManager)
    → IsCoherent s
    → lookup p s.cache ≡ none
    → p < s.page_count
    → Loads p s (fetch p s).0 (fetch p s).1
unfolding fetch read_then_add
fetch-Loads p s c absent low =
    after_evict p s (evict_one_if_full s).1 (evict_one_if_full s).0 c absent low
      (evict_one-Evicts s c)
