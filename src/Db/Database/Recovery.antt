-- ===== src/Db/Database/Recovery.antt =====
-- The rows of demo-db/src/database.cpp across a crash: an INSERT goes to the log and to the tree, and
-- the constructor gives the rows of the log to the tree again.
use c_book.Prelude.{
  Option, ℕ, ◌+◌, ◌^◌, ◌<◌, ◌≡◌, ap, ◌∙◌, sym, subst, List, [], none, ok, All, length, arith,
}
use c_book.Prelude.Int.{ℤ}
use c_book.Db.Wal.{Row, replay}
use c_book.Db.Wal.Records.{IsInt64}
use c_book.Db.Wal.Replay.{log_all}
use c_book.Db.PageStore.{PageStore}
use c_book.Db.Database.Changes.{Database, open_rows}
use c_book.Db.BTree.Shape.{Tree, rows_in, value_at}
use c_book.Db.BTree.{BPlusTree, find}
use c_book.Db.BTree.Reading.{Returns}
use c_book.Db.PageManager.{Page}
use mathlib.Core.Path.{fun_ext}
use c_book.Db.BTree.Inserting.Sound.{Sound}
use c_book.Db.BTree.Inserting.Roots.{IsTree}
use c_book.Db.BTree.Inserting.Clients.{put_all, new_pages, new_pages_mono}
use c_book.Db.Database.Inserting.{
  put_all-put_all, replay-log_fresh, insert_each, insert_each-put_all, open_rows-put_all,
}

-- A page manager just opened on a file of `count` pages with the contents `disk`.
pub record Opened (P : PageStore) (disk : ℕ → Page) (count : ℕ) (s : P.State) : Type 0 where
  pub ready : P.IsReady s
  pub counted : P.page_count s ≡ count
  pub shows : (q : ℕ) → P.view s q ≡ disk q

-- However a file with the contents `disk` is opened, the database starts from it and the log, and `key`
-- then has `value`.
abbrev pub StartsWith : (P : PageStore) → ℕ → ℤ → Option ℤ → List ℕ → (ℕ → Page) → ℕ → Type 0
StartsWith P fuel key value wal disk count =
    (s : P.State)
    → Opened P disk count s
    → (t : BPlusTree P) × (open_rows P fuel wal s ≡ (ok tt, t))
      × ((rounds : ℕ) × Returns P (find P rounds key) value t)

Opened-IsTree :
    (P : PageStore) (h : ℕ) (u : Tree h) (t : BPlusTree P) (s : P.State)
    → IsTree P t h u
    → Opened P (P.view t.pm) (P.page_count t.pm) s
    → IsTree P (record t { pm = s }) h u
Opened-IsTree P h u t s whole o = record {
  ready = o.ready;
  root = whole.root;
  meta = o.shows 0 ∙ whole.meta;
  sound =
      subst (λ v. Sound (P.page_count s) v h none none 0 u) (sym (fun_ext o.shows))
        (subst (λ c. Sound c (P.view t.pm) h none none 0 u) (sym o.counted) whole.sound);
}

-- The database starts from the pages of a tree.
pub tree-StartsWith :
    (P : PageStore) (fuel h : ℕ) (u : Tree h) (news : List Row) (wal : List ℕ) (t : BPlusTree P)
    → IsTree P t h u
    → replay wal ≡ news
    → h + length news < fuel
    → P.page_count t.pm + new_pages h news < 2 ^ 32
    → All (λ r. IsInt64 r.0 × IsInt64 r.1) news
    → (key : ℤ)
    → StartsWith P fuel key
        (value_at key (put_all news (rows_in h u)))
        wal
        (P.view t.pm)
        (P.page_count t.pm)
tree-StartsWith P fuel h u news wal t whole logged enough small ints key s o =
    open_rows-put_all P fuel h u news wal (record t { pm = s }) (Opened-IsTree P h u t s whole o)
      logged enough (omega (arith, o.counted)) ints key

-- The tree after INSERTs, and what the database starts with from the old pages and from the new.
pub record Recovers (P : PageStore) (fuel h : ℕ) (u : Tree h) (news : List Row) (key : ℤ)
    (db : Database P) (t : BPlusTree P) (h' : ℕ) (u' : Tree h') : Type 0 where
  pub returns :
      insert_each P fuel news db
      ≡ (ok tt, record db { wal = log_all db.wal news; tree = t; indexes = [] })
  pub whole : IsTree P t h' u'
  pub rows : rows_in h' u' ≡ put_all news (rows_in h u)
  pub levels : h' < fuel
  pub room : P.page_count t.pm < 2 ^ 32
  pub logged : replay (log_all db.wal news) ≡ news
  pub before :
      StartsWith P fuel key
        (value_at key (put_all news (rows_in h u)))
        (log_all db.wal news)
        (P.view db.tree.pm)
        (P.page_count db.tree.pm)
  pub after :
      StartsWith P fuel key
        (value_at key (put_all news (rows_in h u)))
        (log_all db.wal news)
        (P.view t.pm)
        (P.page_count t.pm)

pub insert_each-Recovers :
    (P : PageStore) (fuel h : ℕ) (u : Tree h) (news : List Row) (db : Database P) (key : ℤ)
    → IsTree P db.tree h u
    → db.wal ≡ []
    → db.indexes ≡ []
    → h + length news + length news < fuel
    → P.page_count db.tree.pm + new_pages h news + new_pages (h + length news) news < 2 ^ 32
    → All (λ r. IsInt64 r.0 × IsInt64 r.1) news
    → (t : BPlusTree P) × (h' : ℕ) × (u' : Tree h') × Recovers P fuel h u news key db t h' u'
insert_each-Recovers P fuel h u news db key whole fresh bare enough small ints =
    let (t, h', u', e, g) =
      insert_each-put_all P fuel h u news db whole bare (omega arith) (omega arith) ints in
    let wal = log_all db.wal news in
    let logged = replay-log_fresh news db.wal fresh ints in
    (
      t,
      h',
      u',
      record {
        returns = e;
        whole = g.tree;
        rows = g.rows;
        levels = omega (arith, g.height);
        room = omega (arith, g.count);
        logged = logged;
        before =
            tree-StartsWith P fuel h u news wal db.tree whole logged (omega arith) (omega arith)
              ints key;
        after =
            subst (λ o. StartsWith P fuel key o wal (P.view t.pm) (P.page_count t.pm))
              (ap (λ l. value_at key (put_all news l)) g.rows
                ∙ put_all-put_all key news (rows_in h u))
              (tree-StartsWith P fuel h' u' news wal t g.tree logged (omega (arith, g.height))
                (omega (arith, g.count, new_pages_mono h' (h + length news) news g.height)) ints
                key);
      },
    )

-- INSERTs into a table with an empty log and without indexes return, with fuel and page numbers enough.
-- When the database is opened again, by a page manager on a file that has the pages as a client saw them
-- before the INSERTs, or as a client sees them after them, the log gives every key the value that it
-- has after the INSERTs.
pub open_rows-insert_each :
    (P : PageStore) (fuel h : ℕ) (u : Tree h) (news : List Row) (db : Database P) (key : ℤ)
    → IsTree P db.tree h u
    → db.wal ≡ []
    → db.indexes ≡ []
    → h + length news + length news < fuel
    → P.page_count db.tree.pm + new_pages h news + new_pages (h + length news) news < 2 ^ 32
    → All (λ r. IsInt64 r.0 × IsInt64 r.1) news
    → let value = value_at key (put_all news (rows_in h u)) in
      (db' : Database P) × (insert_each P fuel news db ≡ (ok tt, db'))
      × StartsWith P fuel key value db'.wal (P.view db.tree.pm) (P.page_count db.tree.pm)
      × StartsWith P fuel key value db'.wal (P.view db'.tree.pm) (P.page_count db'.tree.pm)
open_rows-insert_each P fuel h u news db key whole fresh bare enough small ints =
    let (t, h', u', g) =
      insert_each-Recovers P fuel h u news db key whole fresh bare enough small ints in
    (record db { wal = log_all db.wal news; tree = t; indexes = [] }, g.returns, g.before, g.after)
