-- ===== src/Db/PageManager/Writing.antt =====
-- `write_page` refines the update of an array of pages.
use c_book.Prelude.{
  ℕ, ◌≤◌, ◌<◌, ◌≡◌, ◌≢◌, refl, sym, ap, ◌∙◌, true, false, some, Outcome, ok, throw, length, leb,
  ◌==◌, ==_iff, lt→leb, if◌then◌else◌, arith, subst, inl, inr, Bool-cases,
}
use c_book.Db.PageManager.Cache.{
  Entry, lookup, put, put-IsDistinct, lookup-put, length-put, put-IsDistinct,
}
use c_book.Db.PageManager.Transfer.{page_size}
use c_book.Db.PageManager.{
  Page, PageError, out_of_range, wrong_size, undefined, PageManager, load_into_cache, store_entry,
  write_page, continue,
}
use c_book.Db.PageManager.Invariant.{IsCoherent, view}
use c_book.Db.PageManager.Loading.{Loads}
use c_book.Db.PageManager.Reading.{load_into_cache-Loads}

-- A call of `write_page`: the checks throw and change nothing. Otherwise, if it returns, a client
-- sees the new page and every other page as before; if it throws, nothing has changed.
pub record Writes (p : ℕ) (page : Page) (s : PageManager) (r : Outcome PageError Unit)
    (s' : PageManager) : Type 0 where
  pub coherent : IsCoherent s'
  pub count : s'.page_count ≡ s.page_count
  pub stored : r ≡ ok tt → (q : ℕ) → view s' q ≡ (if p == q then page else view s q)
  pub refused : (x : PageError) → r ≡ throw x → (q : ℕ) → view s' q ≡ view s q
  pub outside : s.page_count ≤ p → (r ≡ throw (out_of_range p)) × (s' ≡ s)
  pub ill_sized : p < s.page_count → length page ≢ page_size → (r ≡ throw wrong_size) × (s' ≡ s)
  pub defined : r ≢ throw undefined

store_entry-IsCoherent :
    (p : ℕ) (page : Page) (e : Entry) (s : PageManager)
    → IsCoherent s
    → lookup p s.cache ≡ some e
    → length page ≡ page_size
    → IsCoherent (store_entry p page s)
unfolding store_entry
store_entry-IsCoherent p page e s c found size = record {
  sized = λ q d h. ground (arith, law q, c.sized q d);
  clean = λ q d h k. ground (arith, law q, c.clean q d);
  in_file = λ q d h. ground (arith, law q, c.in_file q d, c.in_file p e found);
  disk_sized = c.disk_sized;
  past_end = c.past_end;
  listed = λ q. ground (arith, law q, c.listed q, c.listed p);
  nodup = c.nodup;
  positive = c.positive;
  bounded = omega (arith, length-put p (record { page = page; dirty = true }) s.cache, c.bounded);
  distinct = put-IsDistinct p (record { page = page; dirty = true }) s.cache c.distinct;
}
  where
    law :
        (q : ℕ)
        → lookup q (put p (record { page = page; dirty = true }) s.cache)
          ≡ (if p == q then some (record { page = page; dirty = true }) else lookup q s.cache)
    law q = lookup-put p q (record { page = page; dirty = true }) e s.cache found

view-store_entry :
    (p q : ℕ) (page : Page) (e : Entry) (s : PageManager)
    → lookup p s.cache ≡ some e
    → view (store_entry p page s) q ≡ (if p == q then page else view s q)
unfolding store_entry view
view-store_entry p q page e s found =
    ground (arith, lookup-put p q (record { page = page; dirty = true }) e s.cache found)

after_load_write :
    (p : ℕ) (page : Page) (s s' : PageManager) (r : Outcome PageError Entry)
    → p < s.page_count
    → length page ≡ page_size
    → Loads p s r s'
    → Writes p page s
        (continue r (λ e t. (ok tt, store_entry p page t)) s').0
        (continue r (λ e t. (ok tt, store_entry p page t)) s').1
unfolding store_entry
after_load_write p page s s' (throw x) low size l = record {
  coherent = l.keeps.coherent;
  count = l.keeps.count;
  stored = λ h. cc;
  refused = λ y h. l.keeps.same;
  outside = λ h. absurd (omega arith);
  ill_sized = λ h ne. absurd (ne size);
  defined = λ h. l.defined (ground arith);
}
after_load_write p page s s' (ok e) low size l = record {
  coherent = store_entry-IsCoherent p page e s' l.keeps.coherent (l.value e refl).1 size;
  count = l.keeps.count;
  stored = λ h q.
      view-store_entry p q page e s' (l.value e refl).1
      ∙ ap (λ v. if p == q then page else v) (l.keeps.same q);
  refused = λ y h. cc;
  outside = λ h. absurd (omega arith);
  ill_sized = λ h ne. absurd (ne size);
  defined = λ h. cc;
}

pub write_page-inside :
    (p : ℕ) (page : Page) (s : PageManager)
    → p < s.page_count
    → length page ≡ page_size
    → write_page p page s
      ≡ continue
          (load_into_cache p s).0
          (λ e t. (ok tt, store_entry p page t))
          (load_into_cache p s).1
unfolding write_page
write_page-inside p page s h size =
    rw (lt→leb s.page_count p h, (==_iff (length page) page_size).1 size)

write_page-outside :
    (p : ℕ) (page : Page) (s : PageManager)
    → s.page_count ≤ p
    → write_page p page s ≡ (throw (out_of_range p), s)
unfolding write_page
write_page-outside p page s h = ground arith

write_page-ill_sized :
    (p : ℕ) (page : Page) (s : PageManager)
    → p < s.page_count
    → (length page == page_size) ≡ false
    → write_page p page s ≡ (throw wrong_size, s)
unfolding write_page
write_page-ill_sized p page s h size = rw (lt→leb s.page_count p h, size)

-- `write_page` on every branch, from any coherent state: out of range, or with a page of another
-- size, it throws and changes nothing. If it returns, a client sees the new page and all others as
-- before; if it throws, a client sees all pages as before. The state stays coherent.
pub write_page-Writes :
    (p : ℕ) (page : Page) (s : PageManager)
    → IsCoherent s
    → Writes p page s (write_page p page s).0 (write_page p page s).1
write_page-Writes p page s c = elim (Bool-cases (leb s.page_count p)) [
  | inl out ↦
      subst (λ o. Writes p page s o.0 o.1) (sym (write_page-outside p page s (ground arith)))
        (record {
          coherent = c;
          count = refl;
          stored = λ h. cc;
          refused = λ x h q. refl;
          outside = λ h. (refl, refl);
          ill_sized = λ h ne. absurd (ground arith);
          defined = λ h. ground arith;
        })
  | inr low ↦
      let h : p < s.page_count = ground arith in
      elim (Bool-cases (length page == page_size)) [
        | inl size ↦
            let size' = (==_iff (length page) page_size).0 size in
            subst (λ o. Writes p page s o.0 o.1) (sym (write_page-inside p page s h size'))
              (after_load_write p page s (load_into_cache p s).1 (load_into_cache p s).0 h size'
                (load_into_cache-Loads p s c h))
        | inr size ↦
            subst (λ o. Writes p page s o.0 o.1) (sym (write_page-ill_sized p page s h size))
              (record {
                coherent = c;
                count = refl;
                stored = λ h. cc;
                refused = λ x h q. refl;
                outside = λ far. absurd (omega arith);
                ill_sized = λ h ne. (refl, refl);
                defined = λ h. ground arith;
              })
      ]
]
