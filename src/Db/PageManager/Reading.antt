-- ===== src/Db/PageManager/Reading.antt =====
-- `read_page` refines the lookup in an array of pages: caching and eviction are not seen.
use c_book.Prelude.{
  ℕ, ◌+◌, ◌≤◌, ◌<◌, ◌≡◌, ◌≢◌, refl, sym, ap, ◌∙◌, none, some, Outcome, ok, throw, leb, lt→leb,
  arith, subst, inl, inr, Bool-cases, Option-cases,
}
use c_book.Db.PageManager.Cache.{Entry, lookup}
use c_book.Db.PageManager.{
  Page, PageError, out_of_range, undefined, PageManager, touch, fetch, load_into_cache, read_page,
  continue,
}
use c_book.Db.PageManager.Invariant.{IsCoherent, view, Keeps, Keeps-refl, Keeps-trans}
use c_book.Db.PageManager.Loading.{Loads, fetch-Loads, touch-Keeps, view-cached, reframe-Keeps}

pub load-hit :
    (p : ℕ) (e : Entry) (s : PageManager)
    → lookup p s.cache ≡ some e
    → load_into_cache p s
      ≡ (ok e, touch p (record s { stats = record s.stats { hits = s.stats.hits + 1 } }))
unfolding load_into_cache
load-hit p e s h = ground arith

pub load-miss :
    (p : ℕ) (s : PageManager)
    → lookup p s.cache ≡ none
    → load_into_cache p s
      ≡ fetch p (record s { stats = record s.stats { misses = s.stats.misses + 1 } })
unfolding load_into_cache
load-miss p s h = ground arith

touch-cache : (p : ℕ) (s : PageManager) → (touch p s).cache ≡ s.cache
unfolding touch
touch-cache p s = ground arith

pub load_into_cache-Loads :
    (p : ℕ) (s : PageManager)
    → IsCoherent s
    → p < s.page_count
    → Loads p s (load_into_cache p s).0 (load_into_cache p s).1
load_into_cache-Loads p s c low = elim (Option-cases (lookup p s.cache)) [
  | inl absent ↦
      let m = record s { stats = record s.stats { misses = s.stats.misses + 1 } } in
      let k = reframe-Keeps s m refl refl refl refl refl refl c in
      let l = fetch-Loads p m k.coherent absent low in
      subst (λ o. Loads p s o.0 o.1) (sym (load-miss p s absent))
        (record {
          keeps = Keeps-trans k l.keeps;
          value = λ e h. ((l.value e h).0 ∙ k.same p, (l.value e h).1);
          defined = l.defined;
        })
  | inr (e, found) ↦
      let m = record s { stats = record s.stats { hits = s.stats.hits + 1 } } in
      let k = reframe-Keeps s m refl refl refl refl refl refl c in
      subst (λ o. Loads p s o.0 o.1) (sym (load-hit p e s found))
        (record {
          keeps = Keeps-trans k (touch-Keeps p e m k.coherent found);
          value = λ x h.
              (cc (view-cached s p e found, h), ap (lookup p) (touch-cache p m) ∙ found ∙ cc h);
          defined = λ h. cc;
        })
]

-- A call of `read_page`: out of range it throws and changes nothing. In range a client sees no
-- page change, whether it returns or throws, and it returns the page that a client sees.
pub record Reads (p : ℕ) (s : PageManager) (r : Outcome PageError Page) (s' : PageManager)
    : Type 0 where
  pub keeps : Keeps s s'
  pub value : (page : Page) → r ≡ ok page → page ≡ view s p
  pub outside : s.page_count ≤ p → (r ≡ throw (out_of_range p)) × (s' ≡ s)
  pub defined : r ≢ throw undefined

after_load_read :
    (p : ℕ) (s s' : PageManager) (r : Outcome PageError Entry)
    → p < s.page_count
    → Loads p s r s'
    → Reads p s (continue r (λ e t. (ok e.page, t)) s').0 (continue r (λ e t. (ok e.page, t)) s').1
after_load_read p s s' (throw x) low l = record {
  keeps = l.keeps;
  value = λ page h. cc;
  outside = λ h. absurd (omega arith);
  defined = λ h. l.defined (ground arith);
}
after_load_read p s s' (ok e) low l = record {
  keeps = l.keeps;
  value = λ page h. cc ((l.value e refl).0, h);
  outside = λ h. absurd (omega arith);
  defined = λ h. cc;
}

read_page-outside :
    (p : ℕ) (s : PageManager) → s.page_count ≤ p → read_page p s ≡ (throw (out_of_range p), s)
unfolding read_page
read_page-outside p s h = ground arith

pub read_page-inside :
    (p : ℕ) (s : PageManager)
    → p < s.page_count
    → read_page p s
      ≡ continue (load_into_cache p s).0 (λ e t. (ok e.page, t)) (load_into_cache p s).1
unfolding read_page
read_page-inside p s h = rw (lt→leb s.page_count p h)

-- `read_page` on every branch, from any coherent state: out of range it throws and changes
-- nothing. Otherwise it returns, if it does, the page that a client sees there, and, returning or
-- throwing, leaves a coherent state that shows a client the same pages.
pub read_page-Reads :
    (p : ℕ) (s : PageManager) → IsCoherent s → Reads p s (read_page p s).0 (read_page p s).1
read_page-Reads p s c = elim (Bool-cases (leb s.page_count p)) [
  | inl out ↦
      subst (λ o. Reads p s o.0 o.1) (sym (read_page-outside p s (ground arith)))
        (record {
          keeps = Keeps-refl s c;
          value = λ page h. cc;
          outside = λ h. (refl, refl);
          defined = λ h. ground arith;
        })
  | inr low ↦
      let h : p < s.page_count = ground arith in
      subst (λ o. Reads p s o.0 o.1) (sym (read_page-inside p s h))
        (after_load_read p s (load_into_cache p s).1 (load_into_cache p s).0 h
          (load_into_cache-Loads p s c h))
]
