-- ===== src/Db/PageManager/Invariant.antt =====
-- What the page manager keeps: the two containers agree, clean entries equal the disk, and no
-- operation leaves more entries than the cache may hold.
use c_book.Prelude.{
  ℕ, zero, suc, ◌≤◌, ◌<◌, ◌≡◌, refl, ◌∙◌, Bool, true, false, [], ◌∷◌, ◌++◌, append-nil, Option,
  none, some, length, take, drop, arith, length-append, length-take, length-drop, length-replicate,
  take-all,
}
use c_book.Db.PageManager.Cache.{
  Entry, lookup, mem, IsNodup, IsDistinct, put-IsDistinct, lookup-put, length-put, IsDistinct,
  put-IsDistinct, IsDistinct, put-IsDistinct,
}
use c_book.Db.PageManager.Transfer.{Transferred, page_size}
use c_book.Db.PageManager.{Page, make_page, PageManager, update, flushed}

abbrev pub is_some : Option Entry → Bool
is_some none = false
is_some (some e) = true

pub record IsCoherent (s : PageManager) : Type 0 where
  pub sized : (p : ℕ) (e : Entry) → lookup p s.cache ≡ some e → length e.page ≡ page_size
  pub clean : (p : ℕ) (e : Entry) → lookup p s.cache ≡ some e → e.dirty ≡ false → e.page ≡ s.disk p
  pub in_file : (p : ℕ) (e : Entry) → lookup p s.cache ≡ some e → p < s.page_count
  pub disk_sized : (p : ℕ) → length (s.disk p) ≡ page_size
  pub past_end : (p : ℕ) → s.file_pages ≤ p → s.disk p ≡ make_page
  pub listed : (p : ℕ) → mem p s.lru ≡ is_some (lookup p s.cache)
  pub nodup : IsNodup s.lru
  pub positive : 0 < s.cache_size
  pub bounded : length s.cache ≤ s.cache_size
  pub distinct : IsDistinct s.cache

-- What a client sees of a page: the cached entry, or else the disk.
abbrev pub seen : Option Entry → Page → Page
seen none d = d
seen (some e) d = e.page

unfoldable pub view : PageManager → ℕ → Page
view s p = seen (lookup p s.cache) (s.disk p)

-- A step that a client does not notice.
pub record Keeps (s s' : PageManager) : Type 0 where
  pub coherent : IsCoherent s'
  pub same : (p : ℕ) → view s' p ≡ view s p
  pub count : s'.page_count ≡ s.page_count
  pub capacity : s'.cache_size ≡ s.cache_size

pub length-make_page : length make_page ≡ page_size
unfolding make_page
length-make_page = length-replicate {A = ℕ} page_size 0

-- A partly written page still has its size; a wholly written one is the new page.
length-overwrite :
    (n : ℕ) (xs ys : Page)
    → length xs ≡ page_size
    → length ys ≡ page_size
    → n ≤ page_size
    → length (take n xs ++ drop n ys) ≡ page_size
length-overwrite n xs ys hx hy h =
    omega (arith, length-append (take n xs) (drop n ys), length-take n xs, length-drop n ys)

drop-all : (n : ℕ) (xs : Page) → length xs ≤ n → drop n xs ≡ []
drop-all zero [] h = refl
drop-all zero (x ∷ xs) h = absurd (omega arith)
drop-all (suc n) [] h = refl
drop-all (suc n) (x ∷ xs) h = drop-all n xs (omega arith)

pub overwrite_whole :
    (n : ℕ) (xs ys : Page)
    → length xs ≡ page_size
    → length ys ≡ page_size
    → n ≡ page_size
    → take n xs ++ drop n ys ≡ xs
overwrite_whole n xs ys hx hy e =
    rw (take-all n xs (omega arith), drop-all n ys (omega arith)) (append-nil xs)

module _ (s : PageManager) (c : IsCoherent s) (pid : ℕ) (e : Entry) (t : Transferred)
    (found : lookup pid s.cache ≡ some e) (dirty : e.dirty ≡ true) (bound : t.total ≤ page_size)
    (whole : t.done ≡ true → t.total ≡ page_size) where
  pub flushed-same : (p : ℕ) → view (flushed pid e t s) p ≡ view s p
  unfolding view flushed update
  flushed-same p = ground (arith, lookup-put pid p (record e { dirty = false }) e s.cache found)

  pub flushed-disk : t.done ≡ true → (flushed pid e t s).disk pid ≡ e.page
  unfolding flushed update
  flushed-disk h = ground (
    arith,
    overwrite_whole t.total e.page (s.disk pid) (c.sized pid e found) (c.disk_sized pid) (whole h),
  )

  pub flushed-IsCoherent : IsCoherent (flushed pid e t s)
  unfolding flushed update
  flushed-IsCoherent = record {
    sized = λ p d h. ground (
      arith,
      lookup-put pid p (record e { dirty = false }) e s.cache found,
      c.sized p d,
      c.sized pid e found,
    );
    clean = λ p d h k. ground (
      arith,
      lookup-put pid p (record e { dirty = false }) e s.cache found,
      c.clean p d,
      overwrite_whole t.total e.page (s.disk pid) (c.sized pid e found) (c.disk_sized pid),
    );
    in_file = λ p d h. ground (
      arith,
      lookup-put pid p (record e { dirty = false }) e s.cache found,
      c.in_file p d,
      c.in_file pid e found,
    );
    disk_sized = λ p. ground (
      arith,
      c.disk_sized p,
      length-overwrite t.total e.page (s.disk pid) (c.sized pid e found) (c.disk_sized pid) bound,
    );
    past_end = λ p h. ground (arith, c.past_end p);
    listed = λ p. ground (
      arith,
      lookup-put pid p (record e { dirty = false }) e s.cache found,
      c.listed p,
      c.listed pid,
    );
    nodup = c.nodup;
    positive = c.positive;
    bounded = ground (arith, length-put pid (record e { dirty = false }) s.cache, c.bounded);
    distinct =
        ground
          (arith, put-IsDistinct pid (record e { dirty = false }) s.cache c.distinct, c.distinct);
  }

pub Keeps-refl : (s : PageManager) → IsCoherent s → Keeps s s
Keeps-refl s c = record { coherent = c; same = λ p. refl; count = refl; capacity = refl }

pub Keeps-trans : {s t u : PageManager} → Keeps s t → Keeps t u → Keeps s u
Keeps-trans k l = record {
  coherent = l.coherent;
  same = λ p. l.same p ∙ k.same p;
  count = l.count ∙ k.count;
  capacity = l.capacity ∙ k.capacity;
}
