-- ===== src/Db/Database/Checkpoint.antt =====
-- `checkpoint` of demo-db/src/database.cpp between INSERTs and the next start of the program.
use c_book.Prelude.{
  ℕ, ◌+◌, ◌^◌, ◌<◌, ◌≡◌, refl, ap, ◌∙◌, sym, subst, List, [], Outcome, ok, throw, All, length,
  arith,
}
use c_book.Prelude.Int.{ℤ}
use c_book.Db.Wal.{Row, truncate, replay}
use c_book.Db.Wal.Records.{IsInt64}
use c_book.Db.Wal.Replay.{log_all}
use c_book.Db.PageStore.{PageStore}
use c_book.Db.BTree.{BPlusTree, lifted}
use c_book.Db.BTree.Shape.{Tree, rows_in, value_at}
use c_book.Db.BTree.Inserting.Roots.{IsTree}
use c_book.Db.BTree.Inserting.Clients.{put_all, new_pages}
use c_book.Db.Database.Changes.{Database, ChangeError, after_sync, checkpoint_indexes, checkpoint}
use c_book.Db.Database.Inserting.{insert_each, replay-nil}
use c_book.Db.Database.Recovery.{Opened, StartsWith, tree-StartsWith, insert_each-Recovers}
use c_book.Db.PageManager.{PageError}

module _ (P : PageStore) where
  -- A checkpoint that returns has written every page to the file, and then emptied the log.
  after_sync-ok :
      (r : Outcome PageError Unit) (db : Database P)
      → (after_sync P (lifted r) db).0 ≡ ok tt
      → (r ≡ ok tt)
        × ((after_sync P (lifted r) db).1.wal ≡ [])
        × ((after_sync P (lifted r) db).1.tree ≡ db.tree)
  unfolding after_sync truncate
  after_sync-ok (throw e) db h = absurd cc
  after_sync-ok (ok u) db h = (refl, refl, refl)

  -- A checkpoint that throws has kept the log of the table, where there are no indexes.
  after_sync-throw :
      (r : Outcome PageError Unit) (db : Database P) (e : ChangeError)
      → db.indexes ≡ []
      → (after_sync P (lifted r) db).0 ≡ throw e
      → (after_sync P (lifted r) db).1.wal ≡ db.wal
  unfolding after_sync checkpoint_indexes
  after_sync-throw (throw x) db e bare h = refl
  after_sync-throw (ok u) db e bare h =
      absurd (no_throw e (sym (ap (λ i. (checkpoint_indexes P i).0) bare) ∙ h))
    where
      no_throw : (e : ChangeError) → ◌≡◌ {A = Outcome ChangeError Unit} (ok tt) (throw e) → ⊥
      no_throw e h = cc

  -- The file of a synced tree has the pages that a client saw.
  synced-Opened :
      (t : BPlusTree P) (s : P.State)
      → P.IsReady t.pm
      → (P.sync t.pm).0 ≡ ok tt
      → Opened P (P.disk (P.sync t.pm).1) (P.page_count (P.sync t.pm).1) s
      → Opened P (P.view t.pm) (P.page_count t.pm) s
  synced-Opened t s ready done o =
      let (still, count, seen, written) = P.syncs t.pm ready in
      record {
        ready = o.ready;
        counted = o.counted ∙ count;
        shows = λ q. o.shows q ∙ written done q;
      }

-- INSERTs into a table with an empty log and without indexes return, with fuel and page numbers enough.
-- If a checkpoint that follows returns, the log is empty, and when the database is opened again, by a
-- page manager on the file as it is then, with as many pages as the database counts, every key has the
-- value that it has after the INSERTs. If the checkpoint throws, the log still has all the rows, and on
-- a file with the pages as a client saw them before the INSERTs it gives every key that value. A
-- truncation of the log does not fail.
pub open_rows-checkpoint :
    (P : PageStore) (fuel h : ℕ) (u : Tree h) (news : List Row) (db : Database P) (key : ℤ)
    → IsTree P db.tree h u
    → db.wal ≡ []
    → db.indexes ≡ []
    → h + length news + length news < fuel
    → P.page_count db.tree.pm + new_pages h news + new_pages (h + length news) news < 2 ^ 32
    → All (λ r. IsInt64 r.0 × IsInt64 r.1) news
    → let value = value_at key (put_all news (rows_in h u)) in
      (db' : Database P) × (insert_each P fuel news db ≡ (ok tt, db'))
      × (let (o, db'') = checkpoint P db' in
          (o ≡ ok tt
            → (db''.wal ≡ [])
              × StartsWith P fuel key value db''.wal
                  (P.disk db''.tree.pm)
                  (P.page_count db''.tree.pm))
          × ((e : ChangeError)
              → o ≡ throw e
              → (replay db''.wal ≡ news)
                × StartsWith P fuel key value db''.wal
                    (P.view db.tree.pm)
                    (P.page_count db.tree.pm)))
unfolding checkpoint
open_rows-checkpoint P fuel h u news db key whole fresh bare enough small ints =
    let (t, h', u', g) =
      insert_each-Recovers P fuel h u news db key whole fresh bare enough small ints in
    let value = value_at key (put_all news (rows_in h u)) in
    let synced : Database P = record db {
      wal = log_all db.wal news;
      tree = record t { pm = (P.sync t.pm).1 };
      indexes = [];
    } in
    let r = (P.sync t.pm).0 in
    let emptied =
      subst (λ o. StartsWith P fuel key o [] (P.view t.pm) (P.page_count t.pm))
        (ap (value_at key) g.rows)
        (tree-StartsWith P fuel h' u' [] [] t g.whole replay-nil (omega (arith, g.levels))
          (omega (arith, g.room)) tt key) in
    (
      record db { wal = log_all db.wal news; tree = t; indexes = [] },
      g.returns,
      (
        (λ done.
            let (ok_sync, wal, tree) = after_sync-ok P r synced done in
            (
              wal,
              subst
                  (λ x.
                    StartsWith P fuel key value (after_sync P (lifted r) synced).1.wal (P.disk x.pm)
                      (P.page_count x.pm))
                  (sym tree)
                  (subst
                    (λ w.
                      StartsWith P fuel key value w (P.disk synced.tree.pm)
                        (P.page_count synced.tree.pm))
                    (sym wal) (λ s o. emptied s (synced-Opened P t s g.whole.ready ok_sync o))),
            )),
        (λ e thrown.
            let kept = after_sync-throw P r synced e refl thrown in
            (
              ap replay kept ∙ g.logged,
              subst
                  (λ w. StartsWith P fuel key value w (P.view db.tree.pm) (P.page_count db.tree.pm))
                  (sym kept) g.before,
            )),
      ),
    )
