-- ===== src/Db/PageManager/Sync.antt =====
-- `sync` brings the page file up to what clients see.
use c_book.Prelude.{
  ℕ, ◌≡◌, ◌≢◌, refl, sym, ap, ◌∙◌, false, List, [], ◌∷◌, none, some, Outcome, ok, throw, ◌==◌,
  arith, inl, inr, subst, Option-cases, if◌then◌else◌,
}
use c_book.Db.PageManager.Cache.{Entry, Assoc, lookup, IsDistinct}
use c_book.Db.PageManager.Transfer.{Sys, moved, interrupted, failed}
use c_book.Db.PageManager.{
  PageError, undefined, PageManager, flush_entry, sync_loop, fsync, sync, continue,
}
use c_book.Db.PageManager.Invariant.{IsCoherent, view, seen, Keeps, Keeps-refl, Keeps-trans}
use c_book.Db.PageManager.Eviction.{Flushes, flush_entry-Flushes}
use c_book.Db.PageManager.Loading.{reframe-Keeps}

-- The loop over some entries of the cache. When it returns, they are on disk.
record Flushed (l : Assoc) (s : PageManager) (r : Outcome PageError Unit) (s' : PageManager)
    : Type 0 where
  keeps : Keeps s s'
  written : r ≡ ok tt → (p : ℕ) (e : Entry) → lookup p l ≡ some e → s'.disk p ≡ e.page
  others : (p : ℕ) → lookup p l ≡ none → s'.disk p ≡ s.disk p
  defined : r ≢ throw undefined

lookup-head : (p : ℕ) (e : Entry) (l : Assoc) → lookup p ((p, e) ∷ l) ≡ some e
unfolding lookup
lookup-head p e l = ground arith

lookup-tail :
    (p q : ℕ) (e d : Entry) (l : Assoc)
    → lookup p l ≡ none
    → lookup q l ≡ some d
    → (q == p ≡ false) × (lookup q ((p, e) ∷ l) ≡ some d)
unfolding lookup
lookup-tail p q e d l h k = (ground arith, ground arith)

lookup-cons :
    (p q : ℕ) (e : Entry) (l : Assoc)
    → lookup q ((p, e) ∷ l) ≡ (if q == p then some e else lookup q l)
unfolding lookup
lookup-cons p q e l = ground arith

then_rest :
    (p : ℕ) (e : Entry) (l : Assoc) (s s' : PageManager) (r : Outcome PageError Unit)
    → lookup p l ≡ none
    → Flushes p e s r s'
    → Flushed l s' (sync_loop l s').0 (sync_loop l s').1
    → Flushed
        ((p, e) ∷ l)
        s
        (continue r (λ u. sync_loop l) s').0
        (continue r (λ u. sync_loop l) s').1
then_rest p e l s s' (throw x) fresh f g = record {
  keeps = f.keeps;
  written = λ h. cc;
  others = λ q h. f.others q (ground (arith, lookup-cons p q e l));
  defined = λ h. f.defined h;
}
then_rest p e l s s' (ok u) fresh f g = record {
  keeps = Keeps-trans f.keeps g.keeps;
  written = λ h q d k. ground (arith, lookup-cons p q e l, g.written h q d, g.others q, f.written);
  others = λ q h. ground (arith, lookup-cons p q e l, g.others q, f.others q);
  defined = λ h. g.defined h;
}

sync_loop-cons :
    (p : ℕ) (e : Entry) (l : Assoc) (s : PageManager)
    → sync_loop ((p, e) ∷ l) s
      ≡ continue (flush_entry p e s).0 (λ u. sync_loop l) (flush_entry p e s).1
unfolding sync_loop
sync_loop-cons p e l s = refl

sync_loop-Flushed :
    (l : Assoc) (s : PageManager)
    → IsCoherent s
    → IsDistinct l
    → ((p : ℕ) (e : Entry) → lookup p l ≡ some e → lookup p s.cache ≡ some e)
    → Flushed l s (sync_loop l s).0 (sync_loop l s).1
unfolding sync_loop lookup IsDistinct
sync_loop-Flushed [] s c h same = record {
  keeps = Keeps-refl s c;
  written = λ h p e k. cc;
  others = λ p h. refl;
  defined = λ h. cc;
}
sync_loop-Flushed ((p, e) ∷ l) s c (fresh, h) same =
    let f = flush_entry-Flushes s p e c (same p e (lookup-head p e l)) in
    let rest = sync_loop-Flushed l (flush_entry p e s).1 f.keeps.coherent h (still f) in
    subst (λ o. Flushed ((p, e) ∷ l) s o.0 o.1) (sym (sync_loop-cons p e l s))
      (then_rest p e l s (flush_entry p e s).1 (flush_entry p e s).0 fresh f rest)
  where
    still :
        Flushes p e s (flush_entry p e s).0 (flush_entry p e s).1
        → (q : ℕ) (d : Entry) → lookup q l ≡ some d
        → lookup q (flush_entry p e s).1.cache ≡ some d
    still f q d k =
        let (other, there) = lookup-tail p q e d l fresh k in f.entries q other ∙ same q d there

-- A call of `sync`: a client sees the same pages as before, whether it returns or throws. Once it
-- has returned, the file holds every page as a client sees it.
pub record Syncs (s : PageManager) (r : Outcome PageError Unit) (s' : PageManager) : Type 0 where
  pub keeps : Keeps s s'
  pub durable : r ≡ ok tt → (p : ℕ) → s'.disk p ≡ view s p
  pub defined : r ≢ throw undefined

on_disk : (s s' : PageManager) (p : ℕ) → Flushed s.cache s (ok tt) s' → s'.disk p ≡ view s p
unfolding view
on_disk s s' p f = elim (Option-cases (lookup p s.cache)) [
  | inl absent ↦ f.others p absent ∙ sym (ap (λ o. seen o (s.disk p)) absent)
  | inr (e, found) ↦ f.written refl p e found ∙ sym (ap (λ o. seen o (s.disk p)) found)
]

abbrev fsynced : Unit {0} → PageManager → Outcome PageError Unit × PageManager
unfolding fsync
fsynced u t = ((fsync t.io).0, record t { io = (fsync t.io).1 })

fsync-defined : (io : List Sys) → (fsync io).0 ≢ throw undefined
unfolding fsync
fsync-defined [] h = cc
fsync-defined (moved n ∷ io) h = cc
fsync-defined (interrupted ∷ io) h = ground arith
fsync-defined (failed ∷ io) h = ground arith

then_fsync :
    (s s' : PageManager) (r : Outcome PageError Unit)
    → Flushed s.cache s r s'
    → Syncs s (continue r fsynced s').0 (continue r fsynced s').1
unfolding fsynced
then_fsync s s' (throw x) f = record {
  keeps = f.keeps;
  durable = λ h. cc;
  defined = λ h. f.defined h;
}
then_fsync s s' (ok u) f = record {
  keeps = Keeps-trans f.keeps (
      reframe-Keeps s' (record s' { io = (fsync s'.io).1 }) refl refl refl refl refl refl
        f.keeps.coherent);
  durable = λ h p. on_disk s s' p f;
  defined = λ h. fsync-defined s'.io h;
}

-- `sync` on every branch, from any coherent state: it stays coherent and shows a client the same
-- pages, also if `sync` throws. If it returns, the file holds every page as a client sees it.
pub sync-Syncs : (s : PageManager) → IsCoherent s → Syncs s (sync s).0 (sync s).1
unfolding sync
sync-Syncs s c =
    then_fsync s (sync_loop s.cache s).1 (sync_loop s.cache s).0
      (sync_loop-Flushed s.cache s c c.distinct (λ p e h. h))
