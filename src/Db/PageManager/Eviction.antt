-- ===== src/Db/PageManager/Eviction.antt =====
-- Flushing an entry and evicting the least recently used page, as a client sees them: not at all.
use c_book.Prelude.{
  ℕ, ◌≤◌, ◌<◌, ◌≡◌, ◌≢◌, refl, sym, ap, ◌∙◌, true, false, [], ◌∷◌, Option, none, some, Outcome, ok,
  throw, length, ltb, ◌==◌, if◌then◌else◌, arith, inl, inr, ◌⊎◌, subst, Bool-cases,
}
use c_book.Db.PageManager.Cache.{
  Entry, Assoc, lookup, back, erase-IsDistinct, lookup-put, length-put, lookup-erase, length-erase,
  erase-IsDistinct, back-mem, back-some, mem-pop_back, pop_back-IsNodup, erase-IsDistinct,
}
use c_book.Db.PageManager.Transfer.{
  Transferred, page_size, transfer_loop, transfer_loop-total, transfer_loop-bound,
}
use c_book.Db.PageManager.{
  PageError, pwrite_failed, undefined, PageManager, update, flushed, flush_entry, evict,
  evict_victim, evict_one_if_full, continue,
}
use c_book.Db.PageManager.Invariant.{
  is_some, IsCoherent, view, Keeps, Keeps-refl, Keeps-trans, flushed-same, flushed-disk,
  flushed-IsCoherent,
}

-- What `flush_entry` does to the entry that it is called on: nothing that a client sees, whether
-- it returns or throws. Once it has returned, the page is on disk and the entry is clean.
pub record Flushes (pid : ℕ) (e : Entry) (s : PageManager) (r : Outcome PageError Unit)
    (s' : PageManager) : Type 0 where
  pub keeps : Keeps s s'
  pub absent : (p : ℕ) → lookup p s.cache ≡ none → lookup p s'.cache ≡ none
  pub size : length s'.cache ≡ length s.cache
  pub order : s'.lru ≡ s.lru
  pub written : r ≡ ok tt → s'.disk pid ≡ e.page
  pub others : (p : ℕ) → (p == pid) ≡ false → s'.disk p ≡ s.disk p
  pub entries : (p : ℕ) → (p == pid) ≡ false → lookup p s'.cache ≡ lookup p s.cache
  pub cached :
      lookup pid s'.cache ≡ some e ⊎ (lookup pid s'.cache ≡ some (record e { dirty = false }))
  pub defined : r ≢ throw undefined

flushed-Flushes :
    (s : PageManager) (pid : ℕ) (e : Entry) (t : Transferred)
    → IsCoherent s
    → lookup pid s.cache ≡ some e
    → e.dirty ≡ true
    → t.total ≤ page_size
    → (t.done ≡ true → t.total ≡ page_size)
    → Flushes pid e s (if t.done then ok tt else throw pwrite_failed) (flushed pid e t s)
unfolding flushed update
flushed-Flushes s pid e t c found dirty bound whole = record {
  keeps = record {
    coherent = flushed-IsCoherent s c pid e t found dirty bound whole;
    same = flushed-same s c pid e t found dirty bound whole;
    count = refl;
    capacity = refl;
  };
  absent = λ p h. ground (arith, lookup-put pid p (record e { dirty = false }) e s.cache found);
  size = ground (arith, length-put pid (record e { dirty = false }) s.cache);
  order = refl;
  written = λ h. flushed-disk s c pid e t found dirty bound whole (ground arith);
  others = λ p h. ground arith;
  entries = λ p h. ground (arith, lookup-put pid p (record e { dirty = false }) e s.cache found);
  cached = ground (arith, lookup-put pid pid (record e { dirty = false }) e s.cache found);
  defined = λ h. ground arith;
}

flush_entry-dirty :
    (s : PageManager) (pid : ℕ) (e : Entry)
    → e.dirty ≡ true
    → flush_entry pid e s ≡ (
      (if (transfer_loop s.io 0 0).done then ok tt else throw pwrite_failed),
      flushed pid e (transfer_loop s.io 0 0) s,
    )
unfolding flush_entry
flush_entry-dirty s pid e d = ground arith

flush_entry-unchanged :
    (s : PageManager) (pid : ℕ) (e : Entry) → e.dirty ≡ false → flush_entry pid e s ≡ (ok tt, s)
unfolding flush_entry
flush_entry-unchanged s pid e d = ground arith

pub flush_entry-Flushes :
    (s : PageManager) (pid : ℕ) (e : Entry)
    → IsCoherent s
    → lookup pid s.cache ≡ some e
    → Flushes pid e s (flush_entry pid e s).0 (flush_entry pid e s).1
flush_entry-Flushes s pid e c found = elim (Bool-cases e.dirty) [
  | inl d ↦
      subst (λ o. Flushes pid e s o.0 o.1) (sym (flush_entry-dirty s pid e d))
        (flushed-Flushes s pid e (transfer_loop s.io 0 0) c found d
          (transfer_loop-bound s.io 0 0 (omega arith)) (transfer_loop-total s.io 0 0 (omega arith)))
  | inr d ↦
      subst (λ o. Flushes pid e s o.0 o.1) (sym (flush_entry-unchanged s pid e d))
        (record {
          keeps = Keeps-refl s c;
          absent = λ p h. h;
          size = refl;
          order = refl;
          written = λ h. sym (c.clean pid e found d);
          others = λ p h. refl;
          entries = λ p h. refl;
          cached = inl found;
          defined = λ h. cc;
        })
]

-- Taking a page out of the cache is not noticed if the disk has it.
evict-Keeps :
    (victim : ℕ) (e : Entry) (s : PageManager)
    → IsCoherent s
    → back s.lru ≡ some victim
    → lookup victim s.cache ≡ some e
    → s.disk victim ≡ e.page
    → Keeps s (evict victim s)
unfolding evict view
evict-Keeps victim e s c last found written = record {
  coherent = record {
    sized = λ p d h. ground (arith, lookup-erase victim p s.cache, c.sized p d);
    clean = λ p d h k. ground (arith, lookup-erase victim p s.cache, c.clean p d);
    in_file = λ p d h. ground (arith, lookup-erase victim p s.cache, c.in_file p d);
    disk_sized = c.disk_sized;
    past_end = c.past_end;
    listed = λ p. ground (
      arith,
      lookup-erase victim p s.cache,
      c.listed p,
      mem-pop_back p victim s.lru c.nodup last,
    );
    nodup = pop_back-IsNodup s.lru c.nodup last;
    positive = c.positive;
    bounded = omega (arith, c.bounded, length-erase victim e s.cache found);
    distinct = erase-IsDistinct victim s.cache c.distinct;
  };
  same = λ p. ground (arith, lookup-erase victim p s.cache);
  count = refl;
  capacity = refl;
}

-- The eviction in front of a new entry: a client sees nothing of it, and there is room once it has
-- returned. It never takes the back of an empty list or the entry of a key that is not there.
pub record Evicts (s : PageManager) (r : Outcome PageError Unit) (s' : PageManager) : Type 0 where
  pub keeps : Keeps s s'
  pub absent : (p : ℕ) → lookup p s.cache ≡ none → lookup p s'.cache ≡ none
  pub room : r ≡ ok tt → length s'.cache < s'.cache_size
  pub defined : r ≢ throw undefined

first_entry : (c : Assoc) → 0 < length c → (p : ℕ) × (e : Entry) × (lookup p c ≡ some e)
unfolding lookup
first_entry [] h = absurd (omega arith)
first_entry ((p, e) ∷ c) h = (p, e, ground arith)

-- A full cache has a least recently used page, and an entry for it.
pub victim_cached :
    (s : PageManager)
    → IsCoherent s
    → s.cache_size ≤ length s.cache
    → (v : ℕ) × (e : Entry) × (back s.lru ≡ some v) × (lookup v s.cache ≡ some e)
victim_cached s c full =
    let (p, d, there) = first_entry s.cache (omega (arith, c.positive)) in
    let (v, last) = back-some p s.lru (c.listed p ∙ ap is_some there) in
    let (e, found) = entry_of (lookup v s.cache) (sym (c.listed v) ∙ back-mem s.lru last) in
    (v, e, last, found)
  where
    entry_of : (o : Option Entry) → is_some o ≡ true → (e : Entry) × (o ≡ some e)
    entry_of none h = cc
    entry_of (some e) h = (e, refl)

-- The victim is dropped from the cache that the flush left.
dropped :
    (v : ℕ) (e d : Entry) (s s' : PageManager) (u : Unit)
    → IsCoherent s
    → back s.lru ≡ some v
    → Flushes v e s (ok u) s'
    → lookup v s'.cache ≡ some d
    → d.page ≡ e.page
    → Evicts s (ok tt) (evict v s')
unfolding evict
dropped v e d s s' u c last f there page = record {
  keeps = Keeps-trans f.keeps (
      evict-Keeps v d s' f.keeps.coherent (ap back f.order ∙ last) there
        (f.written refl ∙ sym page));
  absent = λ p h. ground (arith, lookup-erase v p s'.cache, f.absent p h);
  room = λ h. omega (arith, length-erase v d s'.cache there, f.keeps.coherent.bounded);
  defined = λ h. cc;
}

after_flush :
    (v : ℕ) (e : Entry) (s s' : PageManager) (r : Outcome PageError Unit)
    → IsCoherent s
    → back s.lru ≡ some v
    → lookup v s.cache ≡ some e
    → Flushes v e s r s'
    → Evicts s
        (continue r (λ u t. (ok tt, evict v t)) s').0
        (continue r (λ u t. (ok tt, evict v t)) s').1
after_flush v e s s' (throw x) c last found f = record {
  keeps = f.keeps;
  absent = f.absent;
  room = λ h. cc;
  defined = λ h. f.defined h;
}
after_flush v e s s' (ok u) c last found f = elim f.cached [
  | inl same ↦ dropped v e e s s' u c last f same refl
  | inr cleaned ↦ dropped v e (record e { dirty = false }) s s' u c last f cleaned refl
]

evict_victim-Evicts :
    (v : ℕ) (e : Entry) (s : PageManager)
    → IsCoherent s
    → back s.lru ≡ some v
    → lookup v s.cache ≡ some e
    → Evicts s (evict_victim v e s).0 (evict_victim v e s).1
unfolding evict_victim
evict_victim-Evicts v e s c last found =
    after_flush v e s (flush_entry v e s).1 (flush_entry v e s).0 c last found
      (flush_entry-Flushes s v e c found)

pub evict_one-free :
    (s : PageManager) → ltb (length s.cache) s.cache_size ≡ true → evict_one_if_full s ≡ (ok tt, s)
unfolding evict_one_if_full
evict_one-free s free = rw free

pub evict_one-full :
    (s : PageManager) (v : ℕ) (e : Entry)
    → ltb (length s.cache) s.cache_size ≡ false
    → back s.lru ≡ some v
    → lookup v s.cache ≡ some e
    → evict_one_if_full s ≡ evict_victim v e s
unfolding evict_one_if_full
evict_one-full s v e full last found = ground arith

-- `evict_one_if_full` from any coherent state: a client sees nothing of it, what is not in the
-- cache does not come into it, there is room for an entry once it has returned, and it never takes
-- the back of an empty list.
pub evict_one-Evicts :
    (s : PageManager) → IsCoherent s → Evicts s (evict_one_if_full s).0 (evict_one_if_full s).1
evict_one-Evicts s c = elim (Bool-cases (ltb (length s.cache) s.cache_size)) [
  | inl free ↦
      subst (λ o. Evicts s o.0 o.1) (sym (evict_one-free s free))
        (record {
          keeps = Keeps-refl s c;
          absent = λ p h. h;
          room = λ h. ground arith;
          defined = λ h. cc;
        })
  | inr full ↦
      let (v, e, last, found) = victim_cached s c (ground arith) in
      subst (λ o. Evicts s o.0 o.1) (sym (evict_one-full s v e full last found))
        (evict_victim-Evicts v e s c last found)
]
